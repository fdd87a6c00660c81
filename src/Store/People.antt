-- ===== src/Store/People.antt =====
-- `findUserBySubject`, `erasePerson` and `recordSuggestion` of apps/api/src/store/memory.ts, with the replacements of
-- apps/api/src/lib/privacy.ts. The text of an id is a parameter, as ids are numbers here.
use rescue.Prelude.{
  Bool, List, Option, String, [], count, false, if◌then◌else◌, none, some, suc, true, ◌++◌, ◌==◌,
  ◌∷◌,
}
use rescue.Prelude.Table.{update, values}
use rescue.Store.State.{new_id, record_audit}
use rescue.Store.Types.{
  Actor, AuditAction, EntityId, EntityType, MemoryStore, StoredEvidence, StoredSuggestion,
  StoredUser,
}
use Prim.Native.String.{◌++◌ as text_append}
use text.Mathlib.Text.{◌==◌ as str_eq, starts_with}
use rescue.Prelude.{ℕ}

abbrev redacted_name : String
redacted_name = "Gelöschte Person"

abbrev pub redacted_email : (ℕ → String) → ℕ → String
redacted_email id_text user_id =
    text_append "erased-" (text_append (id_text user_id) "@erased.invalid")

abbrev pub redacted_subject : (ℕ → String) → ℕ → String
redacted_subject id_text user_id = text_append "erased:" (id_text user_id)

abbrev without_subject : String → List (String × StoredUser) → List (String × StoredUser)
without_subject subject [] = []
without_subject subject ((key, user) ∷ rest) =
    if str_eq key subject
    then without_subject subject rest
    else (key, user) ∷ without_subject subject rest

abbrev put_user : String → StoredUser → List (String × StoredUser) → List (String × StoredUser)
put_user subject user [] = (subject, user) ∷ []
put_user subject user ((key, old) ∷ rest) =
    if str_eq key subject then (key, user) ∷ rest else (key, old) ∷ put_user subject user rest

abbrev user_with : ℕ → List (String × StoredUser) → Option StoredUser
user_with user_id [] = none
user_with user_id ((key, user) ∷ rest) =
    if user.id == user_id then some user else user_with user_id rest

abbrev lookup : String → List (String × StoredUser) → Option StoredUser
lookup subject [] = none
lookup subject ((key, user) ∷ rest) = if str_eq key subject then some user else lookup subject rest

abbrev is_uploaded_by : ℕ → StoredEvidence → Bool
is_uploaded_by user_id e = elim e.uploaded_by_user_id [ none ↦ false | some id ↦ id == user_id ]

abbrev unlink : ℕ → StoredEvidence → StoredEvidence
unlink user_id e = if is_uploaded_by user_id e then record e { uploaded_by_user_id = none } else e

pub record Erasure : Type 0 where
  pub erased : Bool
  pub evidence_unlinked : ℕ

unfoldable pub erase_person : (ℕ → String) → ℕ → ℕ → Actor → MemoryStore → Erasure × MemoryStore
erase_person id_text now user_id actor s = elim (user_with user_id s.users) [
  | none ↦ (record { erased = false; evidence_unlinked = 0 }, s)
  | some user ↦
      if starts_with user.subject "erased:"
      then (record { erased = false; evidence_unlinked = 0 }, s)
      else (
        record {
          erased = true;
          evidence_unlinked = count (is_uploaded_by user_id) (values s.evidence);
        },
        record_audit now actor AuditAction.person_erased EntityType.user (EntityId.entity user_id)
            (record s {
              users =
                  put_user (redacted_subject id_text user_id)
                    (record user {
                      name = redacted_name;
                      email = redacted_email id_text user_id;
                      subject = redacted_subject id_text user_id;
                    })
                    (without_subject user.subject s.users);
              evidence = update (unlink user_id) s.evidence;
            }),
      )
]

-- `findUserBySubject`
unfoldable pub find_user_by_subject : String → MemoryStore → Option StoredUser
find_user_by_subject subject s = lookup subject s.users

-- What `recordSuggestion` is given, the provenance included; `recorded` sets the id and the time.
unfoldable pub record_suggestion :
    ℕ → StoredSuggestion → MemoryStore → StoredSuggestion × MemoryStore
record_suggestion now given s =
    let recorded : StoredSuggestion = record given { id = new_id s; created_at = now } in
    (recorded, record s { suggestions = s.suggestions ++ recorded ∷ []; drawn = suc s.drawn })
