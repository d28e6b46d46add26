-- ===== src/Store/Replace/Described.antt =====
-- The rows that a replacement of a playlist's items is to leave, told item by item.
use mathlib.Core.List.{Memᴰ}
use wildfire.Base.{
  ℕ, suc, ◌+◌, ◌≡◌, refl, ap, sym, subst, ◌∙◌, inl, inr, String, ◌==◌, Bool, true, false, Option,
  some, or_else, List, [], ◌∷◌, ◌++◌, length, includes, arith, Bool-cases, eq_iff, eq_refl,
  some-injective, none≢some,
}
use wildfire.Base.Int.{ℤ, pos}
use wildfire.Store.{PlaylistItemRecord}
use wildfire.Store.Items.{Rows}
use wildfire.Store.Replace.{ItemWrite, existing, new, kept_ids, write_of, new_row, new_rows}
use wildfire.Store.Replace.Writes.{Found, later-some}

-- A row that a list of writes asks for: an item of the playlist at the first place that keeps it,
-- with the values given there, or a new item at its place.
pub data IsWritten (playlist : String) (uuid : ℕ → String) (items : List ItemWrite) (rows : Rows)
    : PlaylistItemRecord → Type 0 where
  kept :
      (before : List ItemWrite) (r : PlaylistItemRecord) (duration : ℤ) (loop : Option Bool)
      (after : List ItemWrite)
      → items ≡ before ++ existing r.id duration loop ∷ after
      → includes (kept_ids before) r.id ≡ false
      → Memᴰ r rows
      → r.playlist_id ≡ playlist
      → IsWritten playlist uuid items rows (record r {
        sequence = pos (1 + length before);
        duration = duration;
        loop = or_else loop r.loop;
      })
  added :
      (before : List ItemWrite) (content : String) (duration : ℤ) (loop : Option Bool)
      (after : List ItemWrite)
      → items ≡ before ++ new content duration loop ∷ after
      → IsWritten playlist uuid items rows (record {
        id = uuid (length before);
        playlist_id = playlist;
        content_id = content;
        sequence = pos (1 + length before);
        duration = duration;
        loop = or_else loop false;
      })

-- The first place that keeps an id.
pub write_of-split :
    (id : String) (items : List ItemWrite) {p : Found}
    → write_of id items ≡ some p
    → (before : List ItemWrite) × (d : ℤ) × (l : Option Bool) × (after : List ItemWrite) × (items
        ≡ before ++ existing id d l ∷ after)
      × (includes (kept_ids before) id ≡ false)
      × (p ≡ (length before, existing id d l))
unfolding write_of
write_of-split id [] h = absurd (none≢some h)
write_of-split id (new c d l ∷ items) {p} h =
    let (q, g, e) = later-some (write_of id items) h in
    let (before, d', l', after, split, first, is) = write_of-split id items g in
    (
      new c d l ∷ before,
      d',
      l',
      after,
      ap (λ xs. new c d l ∷ xs) split,
      first,
      sym e ∙ ap (λ (x : Found). let y : Found = (suc x.0, x.1) in y) is,
    )
write_of-split id (existing x d l ∷ items) {p} h = elim (Bool-cases (x == id)) [
  | inl same ↦
      let its = (eq_iff x id).0 same in
      let at_head : p ≡ (0, existing id d l) =
        sym (some-injective (rw same at h))
        ∙ ap (λ y. let q : Found = (0, existing y d l) in q) its in
      ([], d, l, items, ap (λ y. existing y d l ∷ items) its, refl, at_head)
  | inr other ↦
      let (q, g, e) = later-some (write_of id items) (rw other at h) in
      let (before, d', l', after, split, first, is) = write_of-split id items g in
      (
        existing x d l ∷ before,
        d',
        l',
        after,
        ap (λ xs. existing x d l ∷ xs) split,
        rw other first,
        sym e ∙ ap (λ (x : Found). let y : Found = (suc x.0, x.1) in y) is,
      )
]

pub write_of-first :
    (id : String) (before : List ItemWrite) (d : ℤ) (l : Option Bool) (after : List ItemWrite)
    → includes (kept_ids before) id ≡ false
    → write_of id (before ++ existing id d l ∷ after) ≡ some (length before, existing id d l)
unfolding write_of
write_of-first id [] d l after first = rw (eq_refl id) refl
write_of-first id (new c d' l' ∷ before) d l after first =
    rw (write_of-first id before d l after first) refl
write_of-first id (existing x d' l' ∷ before) d l after first = elim (Bool-cases (x == id)) [
  | inl same ↦ absurd (cc (rw same at first))
  | inr other ↦ rw other (rw (write_of-first id before d l after (rw other at first)) refl)
]

pub kept_ids-split :
    (id : String) (before : List ItemWrite) (d : ℤ) (l : Option Bool) (after : List ItemWrite)
    → includes (kept_ids (before ++ existing id d l ∷ after)) id ≡ true
kept_ids-split id [] d l after = rw (eq_refl id) refl
kept_ids-split id (new c d' l' ∷ before) d l after = kept_ids-split id before d l after
kept_ids-split id (existing x d' l' ∷ before) d l after =
    ground (arith, kept_ids-split id before d l after)

pub new_rows-has :
    (playlist : String) (uuid : ℕ → String) (start : ℕ) (before : List ItemWrite) (content : String)
    (d : ℤ) (l : Option Bool) (after : List ItemWrite)
    → Memᴰ
        (new_row playlist (uuid (start + length before)) (start + length before) content d l)
        (new_rows playlist uuid start (before ++ new content d l ∷ after))
unfolding new_rows
new_rows-has playlist uuid start [] c d l after =
    Memᴰ.head (ap (λ n. new_row playlist (uuid n) n c d l) (omega arith))
new_rows-has playlist uuid start (new c' d' l' ∷ before) c d l after = Memᴰ.tail (
    subst
      (λ n.
        Memᴰ (new_row playlist (uuid n) n c d l)
          (new_rows playlist uuid (suc start) (before ++ new c d l ∷ after)))
      (omega arith) (new_rows-has playlist uuid (suc start) before c d l after))
new_rows-has playlist uuid start (existing x d' l' ∷ before) c d l after =
    subst
      (λ n.
        Memᴰ (new_row playlist (uuid n) n c d l)
          (new_rows playlist uuid (suc start) (before ++ new c d l ∷ after)))
      (omega arith) (new_rows-has playlist uuid (suc start) before c d l after)

pub new_rows-split :
    (playlist : String) (uuid : ℕ → String) (start : ℕ) (items : List ItemWrite)
    (r : PlaylistItemRecord)
    → Memᴰ r (new_rows playlist uuid start items)
    → (before : List ItemWrite) × (content : String) × (d : ℤ) × (l : Option Bool) × (after : List
        ItemWrite)
      × (items ≡ before ++ new content d l ∷ after)
      × (r ≡ new_row playlist (uuid (start + length before)) (start + length before) content d l)
unfolding new_rows
new_rows-split playlist uuid start [] r m = elim m [ ]
new_rows-split playlist uuid start (existing x d' l' ∷ items) r m =
    let (before, c, d, l, after, split, is) = new_rows-split playlist uuid (suc start) items r m in
    (
      existing x d' l' ∷ before,
      c,
      d,
      l,
      after,
      ap (λ xs. existing x d' l' ∷ xs) split,
      is ∙ ap (λ n. new_row playlist (uuid n) n c d l) (omega arith),
    )
new_rows-split playlist uuid start (new c' d' l' ∷ items) r (Memᴰ.head e) =
    ([], c', d', l', items, refl, e ∙ ap (λ n. new_row playlist (uuid n) n c' d' l') (omega arith))
new_rows-split playlist uuid start (new c' d' l' ∷ items) r (Memᴰ.tail m) =
    let (before, c, d, l, after, split, is) = new_rows-split playlist uuid (suc start) items r m in
    (
      new c' d' l' ∷ before,
      c,
      d,
      l,
      after,
      ap (λ xs. new c' d' l' ∷ xs) split,
      is ∙ ap (λ n. new_row playlist (uuid n) n c d l) (omega arith),
    )
