-- ===== src/Store/Replace/Asked.antt =====
-- The rows that a replacement leaves are those that its list asks for.
use mathlib.Core.List.{Memᴰ}
use wildfire.Base.{
  ℕ, ◌+◌, ◌≡◌, refl, ap, sym, subst, ◌∙◌, ◌↔◌, inl, inr, String, true, List, ◌∷◌, ◌++◌, map, filter,
  length, includes, arith, Bool-cases, eq_iff, some-injective,
}
use wildfire.Base.Members.{
  mem-append, append-left, append-right, filter-mem, mem-filter, mem-map, map-mem, All-mem,
}
use wildfire.Store.{Store, PlaylistItemRecord}
use wildfire.Store.Playlists.{list_items}
use wildfire.Store.Items.{Rows, applied}
use wildfire.Store.Items.Assign.{UniqueItems}
use wildfire.Store.Replace.{
  ItemWrite, new, kept_ids, known_ids, write_of, rewrite, new_row, new_rows, written,
}
use wildfire.Store.Replace.Writes.{Found}
use wildfire.Store.Replace.Batches.{rewrite_known, rewrite_unknown}
use wildfire.Store.Replace.Kept.{stays, stays_iff, stays-IsMember, IsListed, all-IsListed}
use wildfire.Store.Replace.Atomic.{replaced}
use wildfire.Store.Replace.Described.{
  kept, added, write_of-split, write_of-first, kept_ids-split, new_rows-has, new_rows-split,
  IsWritten,
}

from_zero : (n : ℕ) → 0 + n ≡ n
from_zero n = omega arith

module _ (playlist : String) (items : List ItemWrite) (st : Store) (uuid : ℕ → String)
    (u : UniqueItems st.playlist_items) where
  abbrev old : Rows
  old = list_items playlist st

  listed : (r : PlaylistItemRecord) → Memᴰ r st.playlist_items → IsListed playlist items st r
  listed r m =
      All-mem (IsListed playlist items st) r st.playlist_items m (all-IsListed playlist items st u)

  kept_row-IsWritten :
      (r : PlaylistItemRecord)
      → Memᴰ r st.playlist_items
      → stays playlist items st r ≡ true
      → (applied (rewrite old items) r).playlist_id ≡ playlist
      → IsWritten playlist uuid items st.playlist_items (applied (rewrite old items) r)
  kept_row-IsWritten r there s mine =
      let m = stays-IsMember playlist items st r (listed r there) s in
      elim (Bool-cases (includes (known_ids old items) r.id)) [
        | inl known ↦
            let (k, d, l, found, now) = rewrite_known playlist old items r known in
            let (before, d', l', after, split, first, is) = write_of-split r.id items found in
            subst (IsWritten playlist uuid items st.playlist_items)
              (sym (now ∙ ap (λ (q : Found). written q r) is))
              (kept before r d' l' after split first there
                ((eq_iff r.playlist_id playlist).0 (sym m ∙ known)))
        | inr unknown ↦
            let same =
              ap (λ (x : PlaylistItemRecord). x.playlist_id)
                (rewrite_unknown playlist old items r unknown) in
            absurd (cc (m, unknown, (eq_iff r.playlist_id playlist).1 (sym same ∙ mine)))
      ]

  -- Each row of the playlist is one that the writes ask for.
  replaced-IsWritten :
      (r : PlaylistItemRecord)
      → r.playlist_id ≡ playlist
      → Memᴰ r (replaced playlist items st uuid)
      → IsWritten playlist uuid items st.playlist_items r
  replaced-IsWritten r mine m =
      elim (mem-append r
        (map (applied (rewrite old items)) (filter (stays playlist items st) st.playlist_items))
        (new_rows playlist uuid 0 items) m) [
          | inl h ↦
              let (x, x_in, is) = map-mem (applied (rewrite old items)) r _ h in
              let (there, s) = filter-mem (stays playlist items st) x st.playlist_items x_in in
              subst (IsWritten playlist uuid items st.playlist_items) (sym is) (
                kept_row-IsWritten x there s
                  (sym (ap (λ (y : PlaylistItemRecord). y.playlist_id) is) ∙ mine))
          | inr h ↦
              let (before, c, d, l, after, split, is) = new_rows-split playlist uuid 0 items r h in
              subst (IsWritten playlist uuid items st.playlist_items)
                (sym (is ∙ ap (λ n. new_row playlist (uuid n) n c d l) (from_zero (length before))))
                (added before c d l after split)
        ]

  -- Each row that the writes ask for is there.
  IsWritten-replaced :
      (r : PlaylistItemRecord)
      → IsWritten playlist uuid items st.playlist_items r
      → Memᴰ r (replaced playlist items st uuid)
  IsWritten-replaced r (added before c d l after split) =
      append-right _ _ (new_rows playlist uuid 0 items) (
        subst (λ xs. Memᴰ r (new_rows playlist uuid 0 xs)) (sym split)
          (subst
            (λ n.
              Memᴰ (new_row playlist (uuid n) n c d l)
                (new_rows playlist uuid 0 (before ++ new c d l ∷ after)))
            (from_zero (length before)) (new_rows-has playlist uuid 0 before c d l after)))
  IsWritten-replaced r (kept before x d l after split first there mine) =
      let in_list : includes (kept_ids items) x.id ≡ true =
        ap (λ xs. includes (kept_ids xs) x.id) split ∙ kept_ids-split x.id before d l after in
      let its = listed x there in
      let s : stays playlist items st x ≡ true =
        stays_iff playlist items st x its ∙ rw in_list refl in
      let known =
        stays-IsMember playlist items st x its s ∙ (eq_iff x.playlist_id playlist).1 mine in
      let (k, d', l', found, now) = rewrite_known playlist old items x known in
      let same =
        some-injective
          (sym found ∙ ap (write_of x.id) split ∙ write_of-first x.id before d l after first) in
      append-left r _ (new_rows playlist uuid 0 items) (
        subst
          (λ y. Memᴰ y (
            map (applied (rewrite old items)) (filter (stays playlist items st) st.playlist_items)))
          (now ∙ ap (λ (q : Found). written q x) same)
          (mem-map (applied (rewrite old items)) x _
            (mem-filter (stays playlist items st) x st.playlist_items there s)))

  pub replaced_iff :
      (r : PlaylistItemRecord)
      → r.playlist_id ≡ playlist
      → Memᴰ r (replaced playlist items st uuid) ↔ IsWritten playlist uuid items st.playlist_items r
  replaced_iff r mine = (replaced-IsWritten r mine, IsWritten-replaced r)
