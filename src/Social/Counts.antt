-- ===== src/Social/Counts.antt =====
-- The counters of the social tables and the rows that they count.
use pastel_marketplace.Base.{
  ℕ, ◌≤◌, ◌≡◌, refl, sym, ap, ◌∙◌, String, Bool, true, false, List, [], ◌∷◌, ◌++◌, ◌&&◌, any, ◌==◌,
  inl, inr, Bool-cases, arith,
}
use mathlib.Core.Path.{subst}
use pastel_marketplace.Base.Rows.{
  update_where, delete_where, count, count-append, count-delete, count-zero, delete-none,
}
use pastel_marketplace.Base.Counters.{IsCounted, IsCounted-add, IsCounted-keep, IsCounted-delete}
use pastel_marketplace.Base.Text.{◌===◌, ===_iff}
use pastel_marketplace.Base.Result.{Result, ok, err, prisma}
use pastel_marketplace.Service.{pure, caught, rolled_back, ◌>>◌, bind-ok, some_or-ok}
use pastel_marketplace.Accounts.{Accounts, User, Follow}
use pastel_marketplace.Accounts.Writes.{update_user}
use pastel_marketplace.Identity.Tokens.{user_by_id}
use pastel_marketplace.Social.{
  is_edge, follow, unfollow, insert_follow, create_follow, delete_follow, lower_counts,
  bump_followers, bump_following, drop_followers, drop_following,
}

-- The counters of every user are the numbers of follows that name them, and a pair is in the
-- table at most once.
pub record IsFollowing (users : List User) (follows : List Follow) : Type 0 where
  pub followers :
      IsCounted
        (λ (u : User). u.id)
        (λ u. u.followers_count)
        (λ (f : Follow). f.following_id)
        users
        follows
  pub following :
      IsCounted
        (λ (u : User). u.id)
        (λ u. u.following_count)
        (λ (f : Follow). f.follower_id)
        users
        follows
  pub single : (a b : String) → count (is_edge a b) follows ≤ 1

-- A transaction keeps what holds before it and after its success.
pub caught-keeps :
    {S : Type 0} (P : S → Type 0) (before : S) (r : Result (Unit {0}) × S)
    → P before
    → ((s : S) → r ≡ (ok tt, s) → P s)
    → P (caught (rolled_back before r)).1
caught-keeps P before (ok u, s) kept next = next s refl
caught-keeps P before (err (prisma code), s) kept next = elim (Bool-cases (code === "P2002")) [
  | inl dup ↦ rw dup kept
  | inr other ↦ rw other kept
]
caught-keeps P before (err _, s) kept next = kept

pub rolled_back-keeps :
    {S A : Type 0} (P : S → Type 0) (before : S) (r : Result A × S)
    → P before
    → ((a : A) (s : S) → r ≡ (ok a, s) → P s)
    → P (rolled_back before r).1
rolled_back-keeps P before (ok a, s) kept next = next a s refl
rolled_back-keeps P before (err e, s) kept next = kept

abbrev pub with_users : (List User → List User) → Accounts → Accounts
with_users change db = record db { users = change db.users }

update_user-ok :
    (id : String) (change : User → User) (db : Accounts) {u : User} {db' : Accounts}
    → update_user id change db ≡ (ok u, db')
    → db' ≡ with_users (update_where (user_by_id id) change) db
unfolding update_user
update_user-ok id change db h =
    (some_or-ok _ _ (with_users (update_where (user_by_id id) change) db) h).1

abbrev edge : ℕ → String → String → Follow
edge now a b = record { follower_id = a; following_id = b; created_at = now }

create_follow-ok :
    (now : ℕ) (a b : String) (db : Accounts) {u : Unit {0}} {db' : Accounts}
    → create_follow now a b db ≡ (ok u, db')
    → (any (is_edge a b) db.follows ≡ false)
      × (db' ≡ record db { follows = db.follows ++ edge now a b ∷ [] })
unfolding create_follow
create_follow-ok now a b db h = ground arith

pub both-true : (p q : Bool) → (p && q) ≡ true → (p ≡ true) × (q ≡ true)
both-true p q h = ground arith

single-add :
    (now : ℕ) (a b : String) (fs : List Follow)
    → any (is_edge a b) fs ≡ false
    → ((x y : String) → count (is_edge x y) fs ≤ 1)
    → (x y : String) → count (is_edge x y) (fs ++ edge now a b ∷ []) ≤ 1
single-add now a b fs absent single x y = elim (Bool-cases (is_edge x y (edge now a b))) [
  | inl same ↦
      let (xa, yb) = both-true (x === a) (y === b) same in
      let none_yet = count-zero (is_edge a b) fs absent in
      let moved : count (is_edge x y) fs ≡ 0 =
        ap (λ k. count (is_edge k y) fs) ((===_iff x a).0 xa)
        ∙ ap (λ k. count (is_edge a k) fs) ((===_iff y b).0 yb)
        ∙ none_yet in
      rw (count-append (is_edge x y) fs (edge now a b ∷ []), same) (omega (arith, moved))
  | inr other ↦
      rw (count-append (is_edge x y) fs (edge now a b ∷ []), other) (omega (arith, single x y))
]

abbrev bumped : String → String → List User → List User
bumped a b us =
    update_where (user_by_id a) bump_following (update_where (user_by_id b) bump_followers us)

inserted-IsFollowing :
    (now : ℕ) (a b : String) (db : Accounts)
    → any (is_edge a b) db.follows ≡ false
    → IsFollowing db.users db.follows
    → IsFollowing (bumped a b db.users) (db.follows ++ edge now a b ∷ [])
inserted-IsFollowing now a b db absent h = record {
  followers =
      IsCounted-keep _ _ _ (user_by_id a) bump_following _ _ (λ u. (refl, refl))
        (IsCounted-add _ _ _ bump_followers db.users db.follows (edge now a b) (λ u. (refl, refl))
          h.followers);
  following =
      IsCounted-add _ _ _ bump_following _ db.follows (edge now a b) (λ u. (refl, refl))
        (IsCounted-keep _ _ _ (user_by_id b) bump_followers _ _ (λ u. (refl, refl)) h.following);
  single = single-add now a b db.follows absent h.single;
}

-- Following a user keeps the counters right, on every outcome: on success, for a pair that is
-- already there, for a user who is missing, and for oneself.
pub follow-IsFollowing :
    (now : ℕ) (a b : String) (db : Accounts)
    → IsFollowing db.users db.follows
    → let after = (follow now a b db).1 in IsFollowing after.users after.follows
unfolding follow insert_follow
follow-IsFollowing now a b db h = elim (Bool-cases (a === b)) [
  | inl self ↦ rw self h
  | inr other ↦ rw other (
      caught-keeps (λ x. IsFollowing x.users x.follows) db (insert_follow now a b db) h
        λ s ran.
          let (_, s1, e1, h1) = bind-ok (create_follow now a b) _ db ran in
          let (_, s2, e2, h2) = bind-ok (update_user b bump_followers) _ s1 h1 in
          let (_, s3, e3, h3) = bind-ok (update_user a bump_following) _ s2 h2 in
          let (absent, e1') = create_follow-ok now a b db e1 in
          let e2' =
            update_user-ok b bump_followers s1 e2
            ∙ ap (with_users (update_where (user_by_id b) bump_followers)) e1' in
          let e3' =
            update_user-ok a bump_following s2 e3
            ∙ ap (with_users (update_where (user_by_id a) bump_following)) e2' in
          let e = ap (λ (x : Result (Unit {0}) × Accounts). x.1) (sym h3) in
          subst (λ x. IsFollowing x.users x.follows) (sym e)
            (subst (λ x. IsFollowing x.users x.follows) (sym e3')
              (inserted-IsFollowing now a b db absent h)))
]

lowered-IsFollowing :
    (a b : String) (db : Accounts)
    → count (is_edge a b) db.follows ≡ 1
    → IsFollowing db.users db.follows
    → IsFollowing
        (update_where
          (user_by_id a)
          drop_following
          (update_where (user_by_id b) drop_followers db.users))
        (delete_where (is_edge a b) db.follows)
lowered-IsFollowing a b db one h = record {
  followers =
      IsCounted-keep _ _ _ (user_by_id a) drop_following _ _ (λ u. (refl, refl))
        (IsCounted-delete _ _ _ drop_followers db.users db.follows (is_edge a b) b
          (λ u. (refl, refl))
          (λ f hit. sym ((===_iff b f.following_id).0 (both-true (a === f.follower_id) _ hit).1))
          one h.followers);
  following =
      IsCounted-delete _ _ _ drop_following _ db.follows (is_edge a b) a (λ u. (refl, refl))
        (λ f hit. sym ((===_iff a f.follower_id).0 (both-true _ (b === f.following_id) hit).0)) one
        (IsCounted-keep _ _ _ (user_by_id b) drop_followers _ _ (λ u. (refl, refl)) h.following);
  single = λ x y. omega (arith, count-delete (is_edge x y) (is_edge a b) db.follows, h.single x y);
}

pub zero_of : (n : ℕ) → (n == 0) ≡ true → n ≡ 0
zero_of n h = ground arith

pub one_of : (n : ℕ) → (n == 0) ≡ false → n ≤ 1 → n ≡ 1
one_of n h le = ground arith

pub left_by : {S A : Type 0} {a a' : A} {s s' : S} → pure a s ≡ (ok a', s') → s ≡ s'
left_by {S} {A} h = ap (λ (x : Result A × S). x.1) h

-- Unfollowing keeps the counters right too, also where there was nothing to delete.
pub unfollow-IsFollowing :
    (a b : String) (db : Accounts)
    → IsFollowing db.users db.follows
    → let after = (unfollow a b db).1 in IsFollowing after.users after.follows
unfolding unfollow delete_follow lower_counts
unfollow-IsFollowing a b db h =
    rolled_back-keeps (λ x. IsFollowing x.users x.follows) db (delete_follow a b db) h
      λ u s ran. elim (Bool-cases (count (is_edge a b) db.follows == 0)) [
        | inl nothing ↦
            subst (λ x. IsFollowing x.users x.follows) (left_by (rw (nothing, lower_counts) at ran))
              (subst (λ fs. IsFollowing db.users fs)
                (sym (delete-none (is_edge a b) db.follows (zero_of _ nothing))) h)
        | inr something ↦
            let s0 : Accounts = record db { follows = delete_where (is_edge a b) db.follows } in
            let (_, s1, e1, h1) =
              bind-ok (update_user b drop_followers) (λ _. update_user a drop_following >> pure tt)
                s0 (rw (something, lower_counts) at ran) in
            let (_, s2, e2, h2) = bind-ok (update_user a drop_following) (λ _. pure tt) s1 h1 in
            let e2' =
              update_user-ok a drop_following s1 e2
              ∙ ap (with_users (update_where (user_by_id a) drop_following))
                  (update_user-ok b drop_followers s0 e1) in
            subst (λ x. IsFollowing x.users x.follows) (sym e2' ∙ left_by h2)
              (lowered-IsFollowing a b db (one_of _ something (h.single a b)) h)
      ]
