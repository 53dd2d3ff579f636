-- ===== src/Admin/Audit.antt =====
-- Every decision of an operator leaves its trace in the audit log, as audit.service.ts demands.
use pastel_marketplace.Base.{
  ℕ, ◌≡◌, refl, sym, ap, ◌∙◌, String, Option, some, List, [], ◌∷◌, ◌++◌, find?, or_else,
}
use pastel_marketplace.Base.Rows.{update_where}
use pastel_marketplace.Base.Text.{◌===◌}
use pastel_marketplace.Base.Result.{Result, ok, err, not_found, prisma}
use pastel_marketplace.Service.{
  refused, Service, pure, some_or, atomically, ◌>>=◌, ◌>>◌, bind-ok, some_or-ok, rolled_back-ok,
}
use pastel_marketplace.Accounts.{Accounts, User, AuditLog}
use pastel_marketplace.Accounts.Writes.{update_user}
use pastel_marketplace.Identity.Tokens.{user_by_id}
use pastel_marketplace.Admin.{log, to_admin_user_resource}
use pastel_marketplace.Admin.Users.{
  restrict, unrestrict, ban, change_status, add_restriction, user_not_found,
}
use pastel_marketplace.Admin.Moderation.{
  Desk, Queue, report_queue, appeal_queue, waitlist_queue, deletion_queue, decide, resolve_report,
  approve_waitlist, review_appeal, complete_deletion_request,
}

-- The calls that change something, with their arguments but the operator.
pub data Decision : Type 0 where
  restricts bans : String → String → Decision
  unrestricts : String → Option String → Decision
  resolves : String → String → Option String → Decision
  reviews : String → String → String → Decision
  approves completes : String → Decision

abbrev entry : String → String → String → String → List (String × Option String) → AuditLog
entry operator action entity id detail = record {
  actor = operator;
  action = action;
  entity_type = entity;
  entity_id = some id;
  detail = detail;
}

-- The entry that a decision is to leave.
abbrev pub entry_of : String → Decision → AuditLog
entry_of op (restricts id reason) =
    entry op "user.restrict" "User" id (("reason", some reason) ∷ [])
entry_of op (bans id reason) = entry op "user.ban" "User" id (("reason", some reason) ∷ [])
entry_of op (unrestricts id reason) =
    entry op "user.unrestrict" "User" id (("reason", some (or_else reason "unrestricted")) ∷ [])
entry_of op (resolves id status note) =
    entry op "report.resolve" "ContentReport" id (("status", some status) ∷ ("note", note) ∷ [])
entry_of op (reviews id status note) =
    entry op "appeal.review" "RestrictionAppeal" id
      (("status", some status) ∷ ("adminNote", some note) ∷ [])
entry_of op (approves id) = entry op "waitlist.approve" "Waitlist" id []
entry_of op (completes id) = entry op "deletionRequest.complete" "AccountDeletionRequest" id []

-- A call on the accounts of the desk, and a call whose row is dropped.
abbrev put : {A : Type 0} → Desk → Result A × Accounts → Result (Unit {0}) × Desk
put d (ok a, db) = (ok tt, record d { accounts = db })
put d (err e, db) = (err e, record d { accounts = db })

abbrev done : {A : Type 0} → Result A × Desk → Result (Unit {0}) × Desk
done (ok a, d) = (ok tt, d)
done (err e, d) = (err e, d)

unfoldable pub run : ℕ → String → Decision → Service Desk (Unit {0})
unfolding restrict ban unrestrict resolve_report review_appeal approve_waitlist
    complete_deletion_request
run now op (restricts id reason) d = put d (restrict now op id reason d.accounts)
run now op (bans id reason) d = put d (ban now op id reason d.accounts)
run now op (unrestricts id reason) d = put d (unrestrict now op id reason d.accounts)
run now op (resolves id status note) d = done (resolve_report op id status note d)
run now op (reviews id status note) d = done (review_appeal now op id status note d)
run now op (approves id) d = done (approve_waitlist op id d)
run now op (completes id) d = done (complete_deletion_request now op id d)

update_user-log :
    (id : String) (change : User → User) (db : Accounts) {u : User} {db' : Accounts}
    → update_user id change db ≡ (ok u, db')
    → db'.audit_log ≡ db.audit_log
unfolding update_user
update_user-log id change db h =
    ap (λ (x : Accounts). x.audit_log)
      (some_or-ok _ _ (record db { users = update_where (λ u. u.id === id) change db.users }) h).1

change_status-log :
    (now : ℕ) (change : User → User) (op id action reason : String) (db : Accounts) {u : User}
    {db' : Accounts}
    → change_status now change op id action reason db ≡ (ok u, db')
    → db'.audit_log ≡ db.audit_log
unfolding change_status add_restriction
change_status-log now change op id action reason db h =
    let (existing, s1, e1, h1) =
      bind-ok (some_or (find? (user_by_id id) db.users) user_not_found) _ db h in
    let (u, s2, e2, h2) = bind-ok (update_user id change) _ s1 h1 in
    ap (λ (x : Result User × Accounts). x.1.audit_log) (sym h2)
    ∙ update_user-log id change s1 e2
    ∙ ap (λ (x : Accounts). x.audit_log) (some_or-ok _ _ db e1).1

-- The tail of the three calls on accounts: the row is logged after the transaction.
logged :
    (now : ℕ) (change : User → User) (op id action reason name : String)
    (detail : List (String × Option String)) (db : Accounts) {A : Type 0} (f : User → A) {a : A}
    {db' : Accounts}
    → (atomically (change_status now change op id action reason) >>= λ u.
          log op name "User" (some id) detail >> pure (f u))
        db
      ≡ (ok a, db')
    → db'.audit_log ≡ db.audit_log ++ entry op name "User" id detail ∷ []
unfolding log
logged now change op id action reason name detail db f h =
    let (u, s1, e1, h1) =
      bind-ok (atomically (change_status now change op id action reason)) _ db h in
    ap (λ (x : Result _ × Accounts). x.1.audit_log) (sym h1)
    ∙ ap (λ rows. rows ++ entry op name "User" id detail ∷ [])
        (change_status-log now change op id action reason db (rolled_back-ok db _ e1))

decide-log :
    {Row : Type 0} (q : Queue Row) (id : String) (change : Row → Row) (op action entity : String)
    (detail : List (String × Option String)) (d : Desk) {row : Row} {d' : Desk}
    → ((rows : List Row) (s : Desk) → (q.with_rows rows s).accounts ≡ s.accounts)
    → decide q id change op action entity detail d ≡ (ok row, d')
    → d'.accounts.audit_log ≡ d.accounts.audit_log ++ entry op action entity id detail ∷ []
unfolding decide log
decide-log q id change op action entity detail d same h =
    let (existing, s1, e1, h1) =
      bind-ok (some_or (find? (λ r. q.id r === id) (q.rows d)) (not_found q.missing)) _ d h in
    let rows = update_where (λ r. q.id r === id) change (q.rows s1) in
    let (row, s2, e2, h2) =
      bind-ok (some_or (find? (λ r. q.id r === id) (q.rows (q.with_rows rows s1))) (prisma "P2025"))
        _ (q.with_rows rows s1) h1 in
    let kept =
      ap (λ (x : Desk). x.accounts) (some_or-ok _ _ (q.with_rows rows s1) e2).1
      ∙ same rows s1
      ∙ ap (λ (x : Desk). x.accounts) (some_or-ok _ _ d e1).1 in
    ap (λ (x : Result _ × Desk). x.1.accounts.audit_log) (sym h2)
    ∙ ap (λ (x : Accounts). x.audit_log ++ entry op action entity id detail ∷ []) kept

put-ok :
    {A : Type 0} (d : Desk) (r : Result A × Accounts) {u : Unit {0}} {d' : Desk}
    → put d r ≡ (ok u, d')
    → (a : A) × (r ≡ (ok a, d'.accounts))
put-ok d (ok a, db) h = (a, ap (λ (x : Result (Unit {0}) × Desk). (ok a, x.1.accounts)) h)
put-ok d (err e, db) h = refused h

done-ok :
    {A : Type 0} (r : Result A × Desk) {u : Unit {0}} {d' : Desk}
    → done r ≡ (ok u, d')
    → (a : A) × (r ≡ (ok a, d'))
done-ok (ok a, d) h = (a, ap (λ (x : Result (Unit {0}) × Desk). (ok a, x.1)) h)
done-ok (err e, d) h = refused h

-- Every decision that succeeds leaves exactly one entry in the audit log, behind those that are
-- there: with the operator who took it, its name, the row it is about, and what it set.
pub run-log :
    (now : ℕ) (operator : String) (decision : Decision) (d d' : Desk)
    → run now operator decision d ≡ (ok tt, d')
    → d'.accounts.audit_log ≡ d.accounts.audit_log ++ entry_of operator decision ∷ []
unfolding run restrict ban unrestrict resolve_report review_appeal approve_waitlist
    complete_deletion_request
run-log now op (restricts id reason) d d' h =
    logged now _ op id "restrict" reason "user.restrict" _ d.accounts to_admin_user_resource
      (put-ok d (restrict now op id reason d.accounts) h).1
run-log now op (bans id reason) d d' h =
    logged now _ op id "ban" reason "user.ban" _ d.accounts to_admin_user_resource
      (put-ok d (ban now op id reason d.accounts) h).1
run-log now op (unrestricts id reason) d d' h =
    logged now _ op id "unrestrict" _ "user.unrestrict" _ d.accounts to_admin_user_resource
      (put-ok d (unrestrict now op id reason d.accounts) h).1
run-log now op (resolves id status note) d d' h =
    decide-log report_queue id _ op _ _ _ d (λ rows s. refl)
      (done-ok (resolve_report op id status note d) h).1
run-log now op (reviews id status note) d d' h =
    decide-log appeal_queue id _ op _ _ _ d (λ rows s. refl)
      (done-ok (review_appeal now op id status note d) h).1
run-log now op (approves id) d d' h =
    decide-log waitlist_queue id _ op _ _ _ d (λ rows s. refl)
      (done-ok (approve_waitlist op id d) h).1
run-log now op (completes id) d d' h =
    decide-log deletion_queue id _ op _ _ _ d (λ rows s. refl)
      (done-ok (complete_deletion_request now op id d) h).1
