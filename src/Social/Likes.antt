-- ===== src/Social/Likes.antt =====
-- Likes of stories, favourites and highlights: the laws of their services.
use pastel_marketplace.Base.{
  ℕ, ◌≤◌, ◌≡◌, refl, sym, ap, ◌∙◌, String, false, some, List, [], ◌∷◌, ◌++◌, not, any, find?, ◌==◌,
  inl, inr, Bool-cases, arith,
}
use mathlib.Core.Path.{subst}
use pastel_marketplace.Base.Rows.{
  update_where, delete_where, count, count-append, count-delete, count-zero, delete-none,
}
use pastel_marketplace.Base.Counters.{IsCounted, IsCounted-add, IsCounted-delete}
use pastel_marketplace.Base.Text.{◌===◌, ===_iff}
use pastel_marketplace.Base.Result.{ok, prisma}
use pastel_marketplace.Service.{throw_when, some_or, bind-ok, throw_when-ok, some_or-ok}
use pastel_marketplace.Social.Counts.{
  caught-keeps, rolled_back-keeps, both-true, zero_of, one_of, left_by,
}
use pastel_marketplace.Social.Story.{
  SocialDb, Story, StoryLike, Highlight, HighlightStory, AddHighlightStoryDto, is_like, like,
  unlike, insert_like, delete_like, update_story, bump_likes, drop_likes, story_by_id, add_story,
  assert_owner, highlight_by_id, highlight_not_found,
}

-- The counter of every story is the number of its likes, and a user likes a story at most once.
pub record IsLiked (stories : List Story) (likes : List StoryLike) : Type 0 where
  pub counted :
      IsCounted
        (λ (s : Story). s.id)
        (λ s. s.like_count)
        (λ (l : StoryLike). l.story_id)
        stories
        likes
  pub single : (a b : String) → count (is_like a b) likes ≤ 1

update_story-ok :
    (id : String) (change : Story → Story) (db : SocialDb) {u : Unit {0}} {db' : SocialDb}
    → update_story id change db ≡ (ok u, db')
    → db' ≡ record db { stories = update_where (story_by_id id) change db.stories }
unfolding update_story
update_story-ok id change db h = ground arith

abbrev new_like : ℕ → String → String → StoryLike
new_like now a b = record { story_id = a; user_id = b; created_at = now }

abbrev liked : ℕ → String → String → SocialDb → SocialDb
liked now a b db = record db {
  likes = db.likes ++ new_like now a b ∷ [];
  stories = update_where (story_by_id a) bump_likes db.stories;
}

insert_like-ok :
    (now : ℕ) (a b : String) (db : SocialDb) {u : Unit {0}} {db' : SocialDb}
    → insert_like now a b db ≡ (ok u, db')
    → (any (is_like a b) db.likes ≡ false) × (db' ≡ liked now a b db)
unfolding insert_like
insert_like-ok now a b db h =
    let (_, s1, e1, h1) =
      bind-ok (throw_when (any (is_like a b) db.likes) (prisma "P2002")) _ db h in
    let (absent, same) = throw_when-ok _ _ db e1 in
    (
      absent,
      update_story-ok a bump_likes (record s1 { likes = s1.likes ++ new_like now a b ∷ [] }) h1
          ∙ ap (liked now a b) same,
    )

single-like :
    (now : ℕ) (a b : String) (ls : List StoryLike)
    → any (is_like a b) ls ≡ false
    → ((x y : String) → count (is_like x y) ls ≤ 1)
    → (x y : String) → count (is_like x y) (ls ++ new_like now a b ∷ []) ≤ 1
single-like now a b ls absent single x y = elim (Bool-cases (is_like x y (new_like now a b))) [
  | inl same ↦
      let (xa, yb) = both-true (x === a) (y === b) same in
      let moved : count (is_like x y) ls ≡ 0 =
        ap (λ k. count (is_like k y) ls) ((===_iff x a).0 xa)
        ∙ ap (λ k. count (is_like a k) ls) ((===_iff y b).0 yb)
        ∙ count-zero (is_like a b) ls absent in
      rw (count-append (is_like x y) ls (new_like now a b ∷ []), same) (omega (arith, moved))
  | inr other ↦
      rw (count-append (is_like x y) ls (new_like now a b ∷ []), other) (omega (arith, single x y))
]

-- Liking a story keeps its counter right on every outcome: a second like is not counted, and a like
-- of a story that is missing leaves no row.
pub like-IsLiked :
    (now : ℕ) (a b : String) (db : SocialDb)
    → IsLiked db.stories db.likes
    → let after = (like now a b db).1 in IsLiked after.stories after.likes
unfolding like
like-IsLiked now a b db h =
    caught-keeps (λ x. IsLiked x.stories x.likes) db (insert_like now a b db) h
      λ s ran.
        let (absent, e) = insert_like-ok now a b db ran in
        subst (λ x. IsLiked x.stories x.likes) (sym e)
          (record {
            counted =
                IsCounted-add _ _ _ bump_likes db.stories db.likes (new_like now a b)
                  (λ s. (refl, refl)) h.counted;
            single = single-like now a b db.likes absent h.single;
          })

-- Unliking a story keeps its counter right, also where there was no like.
pub unlike-IsLiked :
    (a b : String) (db : SocialDb)
    → IsLiked db.stories db.likes
    → let after = (unlike a b db).1 in IsLiked after.stories after.likes
unfolding unlike delete_like
unlike-IsLiked a b db h =
    rolled_back-keeps (λ x. IsLiked x.stories x.likes) db (delete_like a b db) h
      λ u s ran. elim (Bool-cases (count (is_like a b) db.likes == 0)) [
        | inl nothing ↦
            subst (λ x. IsLiked x.stories x.likes) (left_by (rw (nothing, delete_like) at ran))
              (subst (λ ls. IsLiked db.stories ls)
                (sym (delete-none (is_like a b) db.likes (zero_of _ nothing))) h)
        | inr something ↦
            let s0 : SocialDb = record db { likes = delete_where (is_like a b) db.likes } in
            let e = update_story-ok a drop_likes s0 (rw (something, delete_like) at ran) in
            let one = one_of _ something (h.single a b) in
            subst (λ x. IsLiked x.stories x.likes) (sym e)
              (record {
                counted =
                    IsCounted-delete _ _ _ drop_likes db.stories db.likes (is_like a b) a
                      (λ s. (refl, refl))
                      (λ l hit.
                        sym ((===_iff a l.story_id).0 (both-true _ (b === l.user_id) hit).0))
                      one h.counted;
                single = λ x y.
                    omega (arith, count-delete (is_like x y) (is_like a b) db.likes, h.single x y);
              })
      ]

-- A story is added to a highlight only by the highlight's owner: where the call succeeds, the
-- highlight is there, and the caller's.
pub add_story-owner :
    (highlight_id user_id : String) (dto : AddHighlightStoryDto) (db db' : SocialDb)
    (r : HighlightStory)
    → add_story highlight_id user_id dto db ≡ (ok r, db')
    → (h : Highlight) × (find? (highlight_by_id highlight_id) db.highlights ≡ some h)
      × (h.user_id ≡ user_id)
unfolding add_story assert_owner
add_story-owner highlight_id user_id dto db db' r ran =
    let (_, s1, e1, h1) = bind-ok (assert_owner highlight_id user_id) _ db ran in
    let (h, s2, e2, h2) =
      bind-ok (some_or (find? (highlight_by_id highlight_id) db.highlights) highlight_not_found) _
        db e1 in
    let (own, _) = throw_when-ok (not (h.user_id === user_id)) _ s2 h2 in
    (h, (some_or-ok _ _ db e2).0, (===_iff h.user_id user_id).0 (ground arith))
