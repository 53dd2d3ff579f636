-- ===== src/Pagination/Sorting.antt =====
-- Rows in order, newest first: what a filter of ordered rows is.
use pastel_marketplace.Base.{
  ◌≡◌, refl, sym, ap, ◌∙◌, String, Bool, true, false, List, [], ◌∷◌, ◌++◌, ◌||◌, filter, All, inl,
  inr, Bool-cases, arith,
}
use pastel_marketplace.Pagination.Keyset.{Key, Coding, key_lt, insert, newest_first}

-- The order of the ids is one: it has no cycles.
pub record IsOrder (id_lt : String → String → Bool) : Type 0 where
  pub asym : (a b : String) → id_lt a b ≡ true → id_lt b a ≡ false
  pub trans : (a b c : String) → id_lt a b ≡ true → id_lt b c ≡ true → id_lt a c ≡ true

module _ (coding : Coding) (order : IsOrder coding.id_lt) where
  abbrev lt : Key → Key → Bool
  lt k k' = key_lt coding k k'

  key_lt-asym : (k l : Key) → lt k l ≡ true → lt l k ≡ false
  key_lt-asym k l h = ground (arith, order.asym k.id l.id)

  key_lt_trans : (k l m : Key) → lt k l ≡ true → lt l m ≡ true → lt k m ≡ true
  key_lt_trans k l m h h' = ground (arith, order.trans k.id l.id m.id)

  module _ {T : Type 0} (key : T → Key) where
    -- Different rows stand at different places of the order.
    abbrev pub apart : T → T → Bool
    apart x y = lt (key x) (key y) || lt (key y) (key x)

    abbrev pub IsApart : List T → Type 0
    IsApart [] = Unit
    IsApart (x ∷ xs) = All (λ y. apart x y ≡ true) xs × IsApart xs

    abbrev pub IsSorted : List T → Type 0
    IsSorted [] = Unit
    IsSorted (x ∷ xs) = All (λ y. lt (key y) (key x) ≡ true) xs × IsSorted xs

    All-map : (P Q : T → Type 0) (xs : List T) → ((x : T) → P x → Q x) → All P xs → All Q xs
    All-map P Q [] f h = tt
    All-map P Q (x ∷ xs) f h = (f x h.0, All-map P Q xs f h.1)

    All-filter : (P : T → Type 0) (p : T → Bool) (xs : List T) → All P xs → All P (filter p xs)
    All-filter P p [] h = tt
    All-filter P p (x ∷ xs) h = elim (Bool-cases (p x)) [
      | inl hit ↦ rw hit (h.0, All-filter P p xs h.1)
      | inr miss ↦ rw miss (All-filter P p xs h.1)
    ]

    pub filter-IsSorted : (p : T → Bool) (xs : List T) → IsSorted xs → IsSorted (filter p xs)
    filter-IsSorted p [] h = tt
    filter-IsSorted p (x ∷ xs) h = elim (Bool-cases (p x)) [
      | inl hit ↦ rw hit (All-filter _ p xs h.0, filter-IsSorted p xs h.1)
      | inr miss ↦ rw miss (filter-IsSorted p xs h.1)
    ]

    insert-All :
        (P : T → Type 0) (x : T) (ys : List T) → P x → All P ys → All P (insert coding key x ys)
    insert-All P x [] px h = (px, tt)
    insert-All P x (y ∷ ys) px h = elim (Bool-cases (lt (key x) (key y))) [
      | inl older ↦ rw older (h.0, insert-All P x ys px h.1)
      | inr newer ↦ rw newer (px, h)
    ]

    newest_first-All :
        (P : T → Type 0) (xs : List T) → All P xs → All P (newest_first coding key xs)
    newest_first-All P [] h = tt
    newest_first-All P (x ∷ xs) h =
        insert-All P x (newest_first coding key xs) h.0 (newest_first-All P xs h.1)

    other_way :
        (x y : T) → lt (key x) (key y) ≡ false → apart x y ≡ true → lt (key y) (key x) ≡ true
    other_way x y newer h = rw newer at h

    insert-IsSorted :
        (x : T) (ys : List T)
        → All (λ y. apart x y ≡ true) ys
        → IsSorted ys
        → IsSorted (insert coding key x ys)
    insert-IsSorted x [] a h = (tt, tt)
    insert-IsSorted x (y ∷ ys) a h = elim (Bool-cases (lt (key x) (key y))) [
      | inl older ↦
          rw older (
            insert-All (λ z. lt (key z) (key y) ≡ true) x ys older h.0,
            insert-IsSorted x ys a.1 h.1,
          )
      | inr newer ↦
          let first = other_way x y newer a.0 in
          rw newer
            ((first, All-map _ _ ys (λ z e. key_lt_trans (key z) (key y) (key x) e first) h.0), h)
    ]

    pub newest_first-IsSorted : (xs : List T) → IsApart xs → IsSorted (newest_first coding key xs)
    newest_first-IsSorted [] h = tt
    newest_first-IsSorted (x ∷ xs) h =
        insert-IsSorted x (newest_first coding key xs) (newest_first-All _ xs h.0)
          (newest_first-IsSorted xs h.1)

    insert-first :
        (x : T) (ys : List T)
        → All (λ y. lt (key y) (key x) ≡ true) ys
        → insert coding key x ys ≡ x ∷ ys
    insert-first x [] h = refl
    insert-first x (y ∷ ys) h = rw (key_lt-asym (key y) (key x) h.0) refl

    filter-insert_out :
        (p : T → Bool) (x : T) (ys : List T)
        → p x ≡ false
        → filter p (insert coding key x ys) ≡ filter p ys
    filter-insert_out p x [] out = rw out refl
    filter-insert_out p x (y ∷ ys) out = ground (arith, filter-insert_out p x ys out)

    filter-insert :
        (p : T → Bool) (x : T) (ys : List T)
        → p x ≡ true
        → All (λ y. apart x y ≡ true) ys
        → IsSorted ys
        → filter p (insert coding key x ys) ≡ insert coding key x (filter p ys)
    filter-insert p x [] hit a h = rw hit refl
    filter-insert p x (y ∷ ys) hit a h = elim (Bool-cases (lt (key x) (key y))) [
      | inl older ↦
          let rest = filter-insert p x ys hit a.1 h.1 in
          elim (Bool-cases (p y)) [
            | inl kept ↦ rw (older, kept, older) (ap (λ l. y ∷ l) rest)
            | inr dropped ↦ rw (older, dropped) rest
          ]
      | inr newer ↦
          let first = other_way x y newer a.0 in
          let below = All-map _ _ ys (λ z e. key_lt_trans (key z) (key y) (key x) e first) h.0 in
          rw (newer, hit)
            (sym (
              insert-first x (filter p (y ∷ ys))
                (All-filter (λ z. lt (key z) (key x) ≡ true) p (y ∷ ys) (first, below))))
    ]

    -- Filtering and ordering commute.
    pub filter-newest_first :
        (p : T → Bool) (xs : List T)
        → IsApart xs
        → newest_first coding key (filter p xs) ≡ filter p (newest_first coding key xs)
    filter-newest_first p [] h = refl
    filter-newest_first p (x ∷ xs) h = elim (Bool-cases (p x)) [
      | inl hit ↦ rw hit (
          ap (insert coding key x) (filter-newest_first p xs h.1)
          ∙ sym (
              filter-insert p x (newest_first coding key xs) hit (newest_first-All _ xs h.0)
                (newest_first-IsSorted xs h.1)))
      | inr miss ↦ rw miss (
          filter-newest_first p xs h.1
          ∙ sym (filter-insert_out p x (newest_first coding key xs) miss))
    ]

    kept_whole : (p : T → Bool) (xs : List T) → All (λ x. p x ≡ true) xs → filter p xs ≡ xs
    kept_whole p [] h = refl
    kept_whole p (x ∷ xs) h = rw h.0 (ap (λ l. x ∷ l) (kept_whole p xs h.1))

    at_middle : (P : T → Type 0) (front back : List T) (c : T) → All P (front ++ c ∷ back) → P c
    at_middle P [] back c h = h.0
    at_middle P (x ∷ front) back c h = at_middle P front back c h.1

    -- Of ordered rows, those behind one are the rows that follow it.
    pub filter-behind :
        (front back : List T) (c : T)
        → IsSorted (front ++ c ∷ back)
        → filter (λ y. lt (key y) (key c)) (front ++ c ∷ back) ≡ back
    filter-behind [] back c h =
        let irreflexive : lt (key c) (key c) ≡ false =
          ground (arith, key_lt-asym (key c) (key c)) in
        rw irreflexive (kept_whole (λ y. lt (key y) (key c)) back h.0)
    filter-behind (x ∷ front) back c h =
        let skip =
          key_lt-asym (key c) (key x)
            (at_middle (λ y. lt (key y) (key x) ≡ true) front back c h.0) in
        rw skip (filter-behind front back c h.1)
