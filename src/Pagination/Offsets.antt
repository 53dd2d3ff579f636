-- ===== src/Pagination/Offsets.antt =====
-- The metadata of an offset page agrees with the rows that its query takes.
use native.Mathlib.Nat.{le-div_iff_mul-le, div-eq_of_lt}
use pastel_marketplace.Base.{
  ℕ, zero, suc, ◌+◌, ◌-◌, ◌*◌, ◌/◌, ◌≤◌, ◌<◌, ◌≡◌, sym, ap, ◌∙◌, ltb, ◌==◌, ◌↔◌, arith,
  if◌then◌else◌, ◌&&◌,
}
use pastel_marketplace.Pagination.{at_least_one, build_offset_meta, to_skip_take}

more_lem : (page k total : ℕ) → (page < (total + suc k - 1) / suc k) ↔ (page * suc k < total)
more_lem page k total =
    let q = (total + suc k - 1) / suc k in
    let fits : (suc page ≤ q) ↔ (suc page * suc k ≤ total + suc k - 1) =
      le-div_iff_mul-le (omega arith) in
    (
      λ h. let m = fits.0 (omega arith) in omega arith,
      λ h. let m = fits.1 (omega arith) in omega arith,
    )

ltb_of : (a b c d : ℕ) → (a < b) ↔ (c < d) → ltb a b ≡ ltb c d
ltb_of a b c d e = ground (arith, e.0, e.1)

total_pages_lem :
    (total k : ℕ)
    → (if total == 0 then 0 else (total + suc k - 1) / suc k) ≡ (total + suc k - 1) / suc k
total_pages_lem zero k = sym (div-eq_of_lt (omega arith))
total_pages_lem (suc n) k = ground arith

at_least_one_lem : (n : ℕ) → at_least_one (suc n) ≡ suc n
at_least_one_lem n = ground arith

predecessor_lem : (p : ℕ) → p ≡ suc p - 1
predecessor_lem p = omega arith

first_page : (p k : ℕ) → ltb 1 (suc p) ≡ ltb 0 (p * suc k)
first_page zero k = ltb_of 1 (suc zero) 0 (zero * suc k) (λ h. omega arith, λ h. omega arith)
first_page (suc p) k = ltb_of 1 (suc (suc p)) 0 (suc p * suc k) (λ h. omega arith, λ h. omega arith)

-- For a page and a limit of at least one, the metadata says that a next page exists exactly where
-- rows are left behind the rows that the page's query skips and takes, and that a previous one
-- exists exactly where the query skips rows of a table that is not empty.
pub build_offset_meta-agrees :
    (page limit total : ℕ)
    → 1 ≤ page
    → 1 ≤ limit
    → let meta = build_offset_meta (record { page = page; limit = limit; total = total }) in
      let query = to_skip_take page limit in
      (meta.has_next ≡ ltb (query.skip + query.take) total)
      × (meta.has_previous ≡ (ltb 0 query.skip && ltb 0 total))
unfolding build_offset_meta to_skip_take
build_offset_meta-agrees (suc p) (suc k) total hp hl =
    let skipped : p * suc k ≡ (at_least_one (suc p) - 1) * suc k =
      ap (λ a. a * suc k) (predecessor_lem p)
      ∙ ap (λ a. (a - 1) * suc k) (sym (at_least_one_lem p)) in
    let last : suc p * suc k ≡ p * suc k + suc k = omega arith in
    (
      ap (λ l. ltb (suc p) (if total == 0 then 0 else (total + l - 1) / l)) (at_least_one_lem k)
          ∙ ap (ltb (suc p)) (total_pages_lem total k)
          ∙ ltb_of (suc p) ((total + suc k - 1) / suc k) (suc p * suc k) total
              (more_lem (suc p) k total)
          ∙ ap (λ x. ltb x total) (last ∙ ap (λ x. x + suc k) skipped),
      ap (λ b. b && ltb 0 total) (first_page p k ∙ ap (ltb 0) skipped),
    )
build_offset_meta-agrees zero limit total hp hl = absurd (omega arith)
build_offset_meta-agrees (suc p) zero total hp hl = absurd (omega arith)
