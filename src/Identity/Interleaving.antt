-- ===== src/Identity/Interleaving.antt =====
-- src/modules/identity/services/token.service.ts: the statements of sign-ins, rotations and log-outs
-- that run at the same time, in any order.
use pastel_marketplace.Base.{
  ℕ, ◌+◌, ◌≤◌, ◌≡◌, ap, String, true, false, none, some, List, [], ◌∷◌, ◌++◌, ◌&&◌, find?, arith,
  inl, inr, Bool-cases, Option-cases,
}
use mathlib.Core.Path.{subst}
use pastel_marketplace.Base.Rows.{count, one_if, count-append, count-find, count-update_none}
use pastel_marketplace.Base.Text.{◌===◌, ===_iff, split}
use pastel_marketplace.Accounts.{Accounts, Credential, Scope}
use pastel_marketplace.Identity.Platform.{Platform, AuthConfig}
use pastel_marketplace.Identity.Tokens.{
  Meta, by_id, is_live, in_family, revoke_at, detect_reuse, revoke_old, insert_next, issue_refresh,
  revoke, family_of, create_credential, fresh_id, first_part,
}
use pastel_marketplace.Identity.Families.{
  live_in, live_count, IsSingle, detect_reuse-le, created_count, emptied, revokes-le, revoked_out,
}

-- The tables, and the credentials that were revoked by a rotation whose new row is still to come.
pub record Running : Type 0 where
  pub db : Accounts
  pub owed : List Credential

-- How many rows of a family are live or still to come.
abbrev pub claims : String → Running → ℕ
claims family s = live_count family s.db + count (in_family family) s.owed

module _ (p : Platform) (config : AuthConfig) where
  -- A statement of one of the requests, at its time. What the request read before is an argument,
  -- as old as it may be: any credential may be refused, or revoked by a rotation that goes on.
  pub data Step : Running → Running → Type 0 where
    refuse :
        (now : ℕ) (cred : Credential) (s : Running)
        → Step s (record s { db = (detect_reuse p config now cred s.db).1 })
    revoke_row :
        (now : ℕ) (cred : Credential) (s : Running)
        → Step s (record { db = (revoke_old p config now cred s.db).1; owed = cred ∷ s.owed })
    insert_row :
        (now : ℕ) (meta : Meta) (cred : Credential) (before after : List Credential) (db : Accounts)
        → Step
            (record { db = db; owed = before ++ cred ∷ after })
            (record { db = (insert_next p config now cred meta db).1; owed = before ++ after })
    sign_in :
        (now : ℕ) (user_id : String) (scope : Scope) (meta : Meta) (s : Running)
        → Step s (record s { db = (issue_refresh p config now user_id scope meta s.db).1 })
    log_out :
        (now : ℕ) (raw : String) (s : Running)
        → Step s (record s { db = (revoke p config now raw s.db).1 })

  pub data Reach (s : Running) : Running → Type 0 where
    here : Reach s s
    next : {t u : Running} → Reach s t → Step t u → Reach s u

  -- A rotation that revokes a row finds it as it read it, still live, and an id that is drawn for a
  -- family names none that has a row or is to get one.
  abbrev pub IsOrderly : {s t : Running} → Step s t → Type 0
  IsOrderly (refuse now cred s) = Unit
  IsOrderly (revoke_row now cred s) =
      (find? (by_id cred.id) s.db.credentials ≡ some cred) × (is_live cred ≡ true)
  IsOrderly (insert_row now meta cred before after db) =
      cred.family ≡ none
      → claims (p.uuid db.created) (record { db = db; owed = before ++ cred ∷ after }) ≡ 0
  IsOrderly (sign_in now user_id scope meta s) = claims (p.uuid s.db.created) s ≡ 0
  IsOrderly (log_out now raw s) = Unit

  abbrev pub IsOrderlyRun : {s t : Running} → Reach s t → Type 0
  IsOrderlyRun here = Unit
  IsOrderlyRun (next run step) = IsOrderlyRun run × IsOrderly step

  abbrev IsSafe : Running → Type 0
  IsSafe s = (family : String) → claims family s ≤ 1

  revoke_row-IsSafe :
      (now : ℕ) (cred : Credential) (s : Running)
      → find? (by_id cred.id) s.db.credentials ≡ some cred
      → is_live cred ≡ true
      → IsSafe s
      → IsSafe (record { db = (revoke_old p config now cred s.db).1; owed = cred ∷ s.owed })
  revoke_row-IsSafe now cred s found live safe family = elim (Bool-cases (in_family family cred)) [
    | inl own ↦
        let single : live_count family s.db ≤ 1 = omega (arith, safe family) in
        let gone = emptied p config now cred s.db.credentials family found live own single in
        let some_row =
          count-find (live_in family) (by_id cred.id) s.db.credentials cred found (ground arith) in
        let kept =
          count-update_none (live_in family) (by_id cred.id) (revoke_at now) s.db.credentials
            (λ c e. revoked_out family now c) in
        rw own (omega (arith, gone, kept, some_row, safe family))
    | inr other ↦
        rw other
          (omega (arith, revokes-le family now (by_id cred.id) s.db.credentials, safe family))
  ]

  -- A new row takes the place of one that was to come, or opens a family that has none.
  created-IsSafe :
      (now : ℕ) (user_id : String) (scope : Scope) (fam : String) (meta : Meta) (db : Accounts)
      (owed : List Credential)
      → ((family : String)
          → one_if (fam === family) + claims family (record { db = db; owed = owed }) ≤ 1)
      → IsSafe (record {
        db = (create_credential p config now user_id scope fam meta db).1;
        owed = owed;
      })
  created-IsSafe now user_id scope fam meta db owed room family =
      omega (arith, created_count p config now user_id scope fam meta db family, room family)

  opened :
      (fam family : String) (s : Running)
      → claims fam s ≡ 0
      → IsSafe s
      → one_if (fam === family) + claims family s ≤ 1
  opened fam family s fresh safe = elim (Bool-cases (fam === family)) [
    | inl same ↦
        rw same (omega (arith, subst (λ x. claims x s ≡ 0) ((===_iff fam family).0 same) fresh))
    | inr other ↦ rw other (omega (arith, safe family))
  ]

  owed_count :
      (family : String) (before after : List Credential) (cred : Credential)
      → count (in_family family) (before ++ cred ∷ after)
        ≡ one_if (in_family family cred) + count (in_family family) (before ++ after)
  owed_count family before after cred = omega (
    arith,
    count-append (in_family family) before (cred ∷ after),
    count-append (in_family family) before after,
  )

  insert_row-IsSafe :
      (now : ℕ) (meta : Meta) (cred : Credential) (before after : List Credential) (db : Accounts)
      → (cred.family ≡ none
          → claims (p.uuid db.created) (record { db = db; owed = before ++ cred ∷ after }) ≡ 0)
      → IsSafe (record { db = db; owed = before ++ cred ∷ after })
      → IsSafe (record { db = (insert_next p config now cred meta db).1; owed = before ++ after })
  unfolding family_of fresh_id
  insert_row-IsSafe now meta cred before after db fresh safe = elim (Option-cases cred.family) [
    | inl alone ↦ rw alone (
        created-IsSafe now cred.user_id cred.scope (p.uuid db.created) meta
          (record db { created = db.created + 1 }) (before ++ after)
          λ family. omega (
            arith,
            opened (p.uuid db.created) family (record { db = db; owed = before ++ cred ∷ after })
                (fresh alone) safe,
            owed_count family before after cred,
          ))
    | inr (fam, own) ↦ rw own (
        created-IsSafe now cred.user_id cred.scope fam meta db (before ++ after) λ family. omega (
          arith,
          owed_count family before after cred,
          ap (λ o. one_if (elim o [ none ↦ false | some f ↦ f === family ])) own,
          safe family,
        ))
  ]

  revoke-le :
      (now : ℕ) (raw : String) (db : Accounts) (family : String)
      → live_count family (revoke p config now raw db).1 ≤ live_count family db
  unfolding revoke
  revoke-le now raw db family = elim (Bool-cases (first_part (split "." raw) === "")) [
    | inl empty ↦ rw empty (omega arith)
    | inr named ↦ rw named (
        revokes-le family now (λ c. by_id (first_part (split "." raw)) c && is_live c)
          db.credentials)
  ]

  Step-IsSafe : {s t : Running} (step : Step s t) → IsOrderly step → IsSafe s → IsSafe t
  unfolding issue_refresh fresh_id
  Step-IsSafe (refuse now cred s) orderly safe =
      λ family. omega (arith, detect_reuse-le p config now cred s.db family, safe family)
  Step-IsSafe (revoke_row now cred s) (found, live) safe =
      revoke_row-IsSafe now cred s found live safe
  Step-IsSafe (insert_row now meta cred before after db) fresh safe =
      insert_row-IsSafe now meta cred before after db fresh safe
  Step-IsSafe (sign_in now user_id scope meta s) fresh safe =
      created-IsSafe now user_id scope (p.uuid s.db.created) meta
        (record s.db { created = s.db.created + 1 }) s.owed
        λ family. opened (p.uuid s.db.created) family s fresh safe
  Step-IsSafe (log_out now raw s) orderly safe =
      λ family. omega (arith, revoke-le now raw s.db family, safe family)

  Reach-IsSafe : {s t : Running} (run : Reach s t) → IsOrderlyRun run → IsSafe s → IsSafe t
  Reach-IsSafe here orderly safe = safe
  Reach-IsSafe (next run step) orderly safe =
      Step-IsSafe step orderly.1 (Reach-IsSafe run orderly.0 safe)

  -- Where no family has more than one live token and no rotation is under way, no family has more
  -- than one after any interleaving of the statements of sign-ins, rotations, refusals and log-outs,
  -- in which every rotation that revokes a row finds it as it read it, still live, and an id that is
  -- drawn for a family names none that has a row or is to get one. Nothing in the code makes sure of
  -- the former: two rotations of one token that both read it before either writes are not covered.
  pub Reach-IsSingle :
      (db : Accounts) (s : Running) (run : Reach (record { db = db; owed = [] }) s)
      → IsSingle db
      → IsOrderlyRun run
      → IsSingle s.db
  Reach-IsSingle db s run single orderly family =
      omega (arith, Reach-IsSafe run orderly (λ f. omega (arith, single f)) family)
