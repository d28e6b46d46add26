-- ===== src/Store/Items/Moved.antt =====
-- What a batch that moves the items of a playlist leaves: the same ids, and free places.
use wildfire.Base.{
  ℕ, ◌+◌, ◌<◌, ◌≡◌, refl, ap, sym, ◌∙◌, inl, inr, String, ◌==◌, false, ◌&&◌, List, [], ◌∷◌, map,
  any, All, All-map, arith, Option-cases, length, includes, eq_iff, eq_refl,
}
use wildfire.Base.Int.{pos, eq_ℤ}
use wildfire.Store.{PlaylistItemRecord}
use wildfire.Store.Items.{Rows, applied, placed, place_from, index_of}
use wildfire.Store.Items.Assign.{
  Fits, UniqueItems, index_of-none, index_of-some, index_of-lt, index_of-injective,
}

-- With the ids a key, only the row itself has its id.
pub any_only :
    (playlist : String) (rows : Rows)
    → UniqueItems rows
    → All
        (λ r.
          any (λ i. i.playlist_id == playlist && i.id == r.id) rows ≡ (r.playlist_id == playlist))
        rows
any_only playlist [] u = tt
any_only playlist (r ∷ rs) u = (
  rw (eq_refl r.id) (ground (arith, none_here rs u.0)),
  All-map (λ s h. h) rs (tails rs u.0 (any_only playlist rs u.1)),
)
  where
    none_here :
        (ss : Rows)
        → All (λ s. (r.id == s.id) ≡ false) ss
        → any (λ i. i.playlist_id == playlist && i.id == r.id) ss ≡ false
    none_here [] h = refl
    none_here (s ∷ ss) h = ground (arith, none_here ss h.1, eq_iff s.id r.id, eq_iff r.id s.id)

    tails :
        (ss : Rows)
        → All (λ s. (r.id == s.id) ≡ false) ss
        → All
            (λ s.
              any (λ i. i.playlist_id == playlist && i.id == s.id) rs ≡ (s.playlist_id == playlist))
            ss
        → All
            (λ s.
              any (λ i. i.playlist_id == playlist && i.id == s.id) (r ∷ rs)
              ≡ (s.playlist_id == playlist))
            ss
    tails [] h k = tt
    tails (s ∷ ss) h k = (rw (h.0) (ground arith), tails ss h.1 k.1)

module _ (playlist : String) (ids : List String) where
  -- Whether a row is in the playlist, as the ids tell.
  abbrev pub IsMember : PlaylistItemRecord → Type 0
  IsMember r = includes ids r.id ≡ (r.playlist_id == playlist)

  pub placed-Fits :
      (base : ℕ) (r : PlaylistItemRecord)
      → IsMember r
      → (r.playlist_id ≡ playlist
          → (i : ℕ) → i < length ids
          → eq_ℤ (pos (base + i)) r.sequence ≡ false)
      → Fits playlist
          (λ id. index_of id ids)
          (length ids)
          (λ id i h. index_of-lt id ids h)
          (λ a b i h k. index_of-injective a b ids {i = i} h k)
          base
          (λ r i. placed base i r)
          (λ r i. refl)
          (λ r i. refl)
          r
  placed-Fits base r m free = record {
    outside = λ h. sym m ∙ index_of-none r.id ids h;
    inside = λ i h. (eq_iff r.playlist_id playlist).0 (sym m ∙ index_of-some r.id ids {i = i} h);
    apart = free;
  }

  -- After a batch the places before its first are free.
  pub moved_free :
      (base : ℕ) (r : PlaylistItemRecord)
      → IsMember r
      → (applied (place_from base ids) r).playlist_id ≡ playlist
      → (i : ℕ) → 1 + i < base
      → eq_ℤ (pos (1 + i)) (applied (place_from base ids) r).sequence ≡ false
  moved_free base r m is i h = elim (Option-cases (index_of r.id ids)) [
    | inl none_there ↦
        let member = (eq_iff r.playlist_id playlist).1 (rw none_there at is) in
        absurd (cc (m, member, index_of-none r.id ids none_there))
    | inr (k, there) ↦ rw there (ground arith)
  ]

  pub moved-IsMember :
      (base : ℕ) (r : PlaylistItemRecord) → IsMember r → IsMember (applied (place_from base ids) r)
  moved-IsMember base r m = elim (Option-cases (index_of r.id ids)) [
    | inl h ↦ rw h m
    | inr (k, h) ↦ rw h m
  ]

  pub same_id : (base : ℕ) (r : PlaylistItemRecord) → (applied (place_from base ids) r).id ≡ r.id
  same_id base r = elim (Option-cases (index_of r.id ids)) [
    | inl h ↦ rw h refl
    | inr (k, h) ↦ rw h refl
  ]

  pub placed_twice :
      (r : PlaylistItemRecord)
      → applied (place_from 1 ids) (applied (place_from 10001 ids) r) ≡ applied (place_from 1 ids) r
  placed_twice r = elim (Option-cases (index_of r.id ids)) [
    | inl h ↦ ap (applied (place_from 1 ids)) (rw h refl)
    | inr (k, h) ↦
        let first : applied (place_from 10001 ids) r ≡ placed 10001 k r = rw h refl in
        ap (applied (place_from 1 ids)) first ∙ rw (h, place_from) refl
  ]

  fresh_moved :
      (base : ℕ) (id : String) (rs : Rows)
      → All (λ s. (id == s.id) ≡ false) rs
      → All (λ s. (id == s.id) ≡ false) (map (applied (place_from base ids)) rs)
  fresh_moved base id [] u = tt
  fresh_moved base id (s ∷ ss) u = (rw (same_id base s) u.0, fresh_moved base id ss u.1)

  pub UniqueItems-moved :
      (base : ℕ) (rs : Rows) → UniqueItems rs → UniqueItems (map (applied (place_from base ids)) rs)
  UniqueItems-moved base [] u = tt
  UniqueItems-moved base (r ∷ rs) u =
      (rw (same_id base r) (fresh_moved base r.id rs u.0), UniqueItems-moved base rs u.1)
