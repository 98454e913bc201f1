-- ===== src/Directory/Search.antt =====
-- What a search finds.
use pqc_grade_a.Base.{
  ℕ, ◌≤◌, ◌≡◌, refl, ap, ◌∙◌, Bool, true, false, some, List, [], ◌∷◌, ◌++◌, Text, ◌==◌,
  if◌then◌else◌, arith, length, take, length-take, select,
}
use pqc_grade_a.Base.Sort.{order_by}
use pqc_grade_a.Db.{Db, User}
use pqc_grade_a.Exec.{ok, Result}
use pqc_grade_a.Exec.Keeps.{returns_once}
use mathlib.Core.Path.{fun_ext}
use pqc_grade_a.Directory.Like.{
  backslash, LikeToken, run, literal, push, tokens, any_suffix, with_head, at_end, matches, replace,
  escape,
}
use pqc_grade_a.Directory.Service.{
  Texts, by_username, search_by_username_prefix, search_by_username,
}
use mathlib.Core.List.{append_assoc}

-- The reference: a name begins with a query, letter by letter.
unfoldable pub starts_with : (ℕ → ℕ) → Text → Text → Bool
starts_with fold [] s = true
starts_with fold (c ∷ q) s = with_head (λ d. fold c == fold d) (starts_with fold q) s

replace-append :
    (c : ℕ) (new xs ys : Text) → replace c new (xs ++ ys) ≡ replace c new xs ++ replace c new ys
unfolding replace
replace-append c new [] ys = refl
replace-append c new (d ∷ xs) ys = rw (replace-append c new xs ys) (simp (append_assoc))

-- A character as it is escaped.
abbrev escape_char : ℕ → Text
escape_char c =
    if c == backslash
    then backslash ∷ c ∷ []
    else if c == b'%'
    then backslash ∷ c ∷ []
    else if c == b'_'
    then backslash ∷ c ∷ []
    else c ∷ []

escape_one : (c : ℕ) → escape (c ∷ []) ≡ escape_char c
unfolding escape replace
escape_one c = ground arith

escape-cons : (c : ℕ) (q : Text) → escape (c ∷ q) ≡ escape (c ∷ []) ++ escape q
unfolding escape
escape-cons c q =
    let percent = λ (t : Text). replace b'%' (backslash ∷ b'%' ∷ []) t in
    let bar = λ (t : Text). replace b'_' (backslash ∷ b'_' ∷ []) t in
    let slash = λ (t : Text). replace backslash (backslash ∷ backslash ∷ []) t in
    ap (λ t. bar (percent t)) (replace-append backslash (backslash ∷ backslash ∷ []) (c ∷ []) q)
    ∙ ap bar (replace-append b'%' (backslash ∷ b'%' ∷ []) (slash (c ∷ [])) (slash q))
    ∙ replace-append b'_' (backslash ∷ b'_' ∷ []) (percent (slash (c ∷ []))) (percent (slash q))

tokens-escape_char :
    (c : ℕ) (s : Text) → tokens false (escape_char c ++ s) ≡ push (literal c) (tokens false s)
unfolding tokens
tokens-escape_char c s = ground arith

abbrev literals : Text → List LikeToken
literals [] = run ∷ []
literals (c ∷ q) = literal c ∷ literals q

escaped_nothing : tokens false (escape [] ++ b'%' ∷ []) ≡ some (literals [])
unfolding tokens escape replace
escaped_nothing = refl

-- The escaped query reads back as its own characters.
tokens-escape : (q : Text) → tokens false (escape q ++ b'%' ∷ []) ≡ some (literals q)
tokens-escape [] = escaped_nothing
tokens-escape (c ∷ q) =
    rw (escape-cons c q, escape_one c, append_assoc, tokens-escape_char, tokens-escape q) refl

any_suffix-at_end : (s : Text) → any_suffix at_end s ≡ true
any_suffix-at_end [] = refl
any_suffix-at_end (c ∷ s) = any_suffix-at_end s

matches-literals : (fold : ℕ → ℕ) (q s : Text) → matches fold (literals q) s ≡ starts_with fold q s
unfolding matches starts_with
matches-literals fold [] s = any_suffix-at_end s
matches-literals fold (c ∷ q) [] = refl
matches-literals fold (c ∷ q) (d ∷ s) = rw (matches-literals fold q s) refl

module _ (k : Texts) (query : Text) (db : Db) where
  abbrev found : List User
  found = take 8 (
      order_by (by_username k)
        (select (λ u. starts_with k.fold (k.lower (k.strip query)) u.username) db.users))

  search_finds : search_by_username k query db ≡ (ok found, db)
  unfolding search_by_username search_by_username_prefix
  search_finds = rw (tokens-escape (k.lower (k.strip query))) (
      ap {B = Result (List User) × Db}
        (λ (p : User → Bool). (ok (take 8 (order_by (by_username k) (select p db.users))), db))
        (fun_ext (λ u. matches-literals k.fold (k.lower (k.strip query)) u.username)))

  -- A search finds the users whose username begins with what was typed, stripped and in lower
  -- case, where the database takes two letters for the same; `%`, `_` and `\` stand for
  -- themselves. They come in the order of usernames, eight at most, and nothing is written.
  pub search_by_username_lem :
      (search_by_username k query db ≡ (
        ok (
            take 8 (
              order_by
                (by_username k)
                (select (λ u. starts_with k.fold (k.lower (k.strip query)) u.username) db.users))),
        db,
      ))
      × ((us : List User) → search_by_username k query db ≡ (ok us, db) → length us ≤ 8)
  search_by_username_lem = (
    search_finds,
    (λ us h.
        let (same, _) =
          returns_once (search_by_username k query db) found us db db search_finds h in
        rw same (
          omega (
            arith,
            length-take 8 (
                order_by (by_username k)
                  (select (λ u. starts_with k.fold (k.lower (k.strip query)) u.username) db.users)),
          ))),
  )
