-- ===== src/Conversation.antt =====
-- backend/src/repositories/conversation_repository.py and
-- backend/src/services/conversation_service.py.
pub mod Repository
pub mod Service
pub mod Invariant
pub mod Inserts
pub mod Pair
pub mod Outcomes
pub mod Branches
pub mod Preserve
pub mod Access
pub mod Admission
pub mod Deletion
pub mod Direct
pub mod PairCount
pub mod Turns
pub mod Race
