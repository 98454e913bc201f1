-- ===== src/Lib.antt =====
-- The backend of PQC Grade A, a messaging service with end-to-end encryption: a model of its
-- services and theorems on them.
--
-- A request passes from a handler (backend/src/api/v1) to a service (backend/src/services), which
-- checks the rights of the user and calls repositories (backend/src/repositories) over the tables
-- (backend/src/models). Db.antt has the tables as lists of rows, with ids and timestamps as
-- numbers and primary keys from a counter. Exec.antt has the form of a method: it reads and writes
-- the database and may raise an error of Errors.antt; request is the scope of a request in
-- backend/src/core/database.py, which rolls back what a handler wrote before it raised.
-- Exec/Keeps.antt has the rules by which a method keeps an invariant.
--
-- - Base.antt and Base/*: Boolean tests, queries and updates of a table, ORDER BY, and their
--   laws.
-- - Base64.antt and Base64/RoundTrip.antt: the codecs of Python's base64 module, strict and
--   lenient.
-- - Conversation/Repository.antt: backend/src/repositories/conversation_repository.py.
-- - Conversation/Service.antt: backend/src/services/conversation_service.py.
-- - Conversation/Invariant.antt, Inserts.antt, Pair.antt, Outcomes.antt, Branches.antt and
--   Preserve.antt: the constraints of the tables, and what each operation returns and keeps.
-- - Conversation/Access.antt, Admission.antt, Deletion.antt, Direct.antt, PairCount.antt,
--   Turns.antt and Race.antt: rights, deletion, and the direct conversation of a pair, alone and
--   with two calls at once, as turns of their statements.
-- - Messaging/Envelope.antt and Messaging/Cursor.antt: MessageEnvelope of
--   backend/src/schemas/messaging.py and the cursor of
--   backend/src/repositories/message_repository.py.
-- - Messaging/Repository.antt and Messaging/Service.antt: the rest of that file and
--   backend/src/services/messaging_service.py.
-- - Messaging/CursorLaws.antt, Older.antt and Pagination.antt: reading a conversation page by
--   page.
-- - Messaging/Outcomes.antt, Sending.antt, SendRights.antt, Revival.antt and SendEffect.antt:
--   who may send, and what a message changes.
-- - IdentityKey/Repository.antt and IdentityKey/Service.antt:
--   backend/src/repositories/identity_key_repository.py and
--   backend/src/services/identity_key_service.py.
-- - IdentityKey/Outcomes.antt, Versions.antt and Rotation.antt: the versions of keys, and
--   rotations.
-- - Account/Platform.antt: what the account services take from elsewhere.
--   Account/PasswordPolicy.antt, Users.antt, Sessions.antt, Mfa.antt and Auth.antt:
--   backend/src/services/password_policy.py, backend/src/repositories/user_repository.py and
--   token_repository.py, backend/src/services/session_service.py with its repository,
--   backend/src/services/mfa_service.py with its repository, and
--   backend/src/services/auth_service.py.
-- - Account/MfaLaws.antt, MfaRuns.antt, SessionLaws.antt, Revocation.antt, RefreshOutcome.antt,
--   TokenLaws.antt, LoginLaws.antt and Login.antt: second factors, refresh tokens, verification
--   tokens and logins.
-- - Backup/Service.antt, Laws.antt and RoundTrip.antt:
--   backend/src/services/conversation_key_backup_service.py with its repository.
-- - File/Service.antt and File/Access.antt: the download of
--   backend/src/services/file_service.py. File/Upload.antt: its upload, over the object store of
--   backend/src/repositories/file_storage.py, which is a state beside the database.
--   File/Uploading.antt, UploadEnds.antt, UploadRights.antt and Sharing.antt: how an upload
--   ends, who may upload, and what others then download.
-- - Account/AccessTokens.antt: backend/src/services/access_tokens.py. Account/Guard.antt and
--   GuardLaws.antt: the session of a request, backend/src/core/dependencies.py.
--   Account/TokenRoundTrip.antt and LoginToken.antt: how a token decodes, and requests after a
--   login.
-- - Directory/Like.antt, Service.antt and Search.antt: the search for users, of
--   backend/src/repositories/user_repository.py, backend/src/services/user_service.py and
--   backend/src/api/v1/users.py.
-- - External/Usernames.antt and Linker.antt: backend/src/services/external_identity_linker.py
--   with its repository. External/Clients.antt: backend/src/services/oidc_client.py and
--   saml_client.py. External/Service.antt and Routes.antt: backend/src/services/oidc_service.py
--   and saml_service.py, and backend/src/api/v1/oidc.py and saml.py.
-- - External/Decimal.antt, Handles.antt, TriedNames.antt and FreeName.antt: the username of a
--   new account. External/Linking.antt, SignIn.antt and Accounts.antt: whose account an identity
--   signs into. External/CallbackSteps.antt and Callback.antt: when the browser comes back
--   signed in.
-- - Socket/Manager.antt, Tracking.antt and Delivery.antt: the registry of
--   backend/src/api/ws/connection_manager.py. Socket/Refinement.antt: its specification.
--   Socket/Realtime.antt and Connection.antt: a connection of backend/src/api/ws/realtime.py.
-- - Api/Schema.antt, Api/Handlers.antt and Api/Validity.antt: the handlers of
--   backend/src/api/v1/conversations.py and backend/src/api/v1/messages.py with the events they
--   send, and sequences of requests.
-- - Api/Accounts.antt, Files.antt, Keys.antt and Backups.antt: the routes of
--   backend/src/api/v1/auth.py, mfa.py and files.py, those of identity keys in users.py and of
--   key backups in messages.py. Api/SignOut.antt: requests after a logout. Api/Responses.antt:
--   the exception handlers of backend/src/main.py and backend/src/core/error_handling.py.
-- - Tests/*: concrete states and runs.
--
-- The parameters are what the program takes from elsewhere: the signature check of the crypto
-- provider, passwords, digests, ciphers, TOTP codes and the classes of characters (Platform), the
-- texts of timestamps and ids (Codec, with RoundTrips as what is relied on) and how pydantic reads
-- a JSON value (Coercion). The clock is an argument of each method that reads it, and so is a
-- random token of each that draws one. The default audit logger does nothing. What a provider
-- answers for a code or a response is a table of clients, and JSON, signers and the letters that
-- the database takes for the same are records of functions. A reader of pages runs on fuel; one
-- turn for each message and one more is enough. So does the search for a username, with a turn for
-- each user and one more: enough with fewer than 10000 users, since then no number has more than
-- the four digits that a base of 28 characters leaves room for.
--
-- Not modelled: email and audit output, the HTTP calls of the provider clients and the workaround
-- of the SAML client for Windows, the channel of Redis, configuration, rate limits, and the schema
-- scripts, which hold no state of the parts above.
--
-- A text is one that PostgreSQL stores, also in the strings of an envelope: it has no character 0
-- and no surrogate. An insert fails with data_error where a text is longer than its column and
-- nothing before it has bounded the text: that PostgreSQL cuts the spaces at the end of such a
-- text instead is not modelled, nor is `updated_at` of a user, which nothing reads. The names of
-- the configured providers fit the column of the device.
pub mod Base
pub mod Errors
pub mod Db
pub mod Exec
pub mod Base64
pub mod Conversation
pub mod IdentityKey
pub mod Messaging
pub mod Account
pub mod Backup
pub mod File
pub mod Socket
pub mod Directory
pub mod External
pub mod Api
pub mod Tests
