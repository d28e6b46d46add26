-- ===== src/Store/Items/Batches.antt =====
-- When an `UPDATE` of several rows is not refused, and what it leaves.
use wildfire.Base.{
  ◌≡◌, refl, sym, ◌∙◌, inl, inr, false, Option, none, some, [], ◌∷◌, ◌++◌, map, All, All-map,
  All-append, Bool-cases, some-injective, none≢some,
}
use mathlib.Core.List.{append_assoc, append-nil}
use wildfire.Store.{PlaylistItemRecord}
use wildfire.Store.Items.{Rows, conflicts, applied, refused, update_each}

-- The new values of a row stand in no other row.
abbrev pub IsClear : Option PlaylistItemRecord → PlaylistItemRecord → Type 0
IsClear none s = Unit
IsClear (some r) s = conflicts r s ≡ false

module _ (change : PlaylistItemRecord → Option PlaylistItemRecord) where
  -- A row before another: its new values and what the other had, the other's and what it has then.
  abbrev pub AreFree : PlaylistItemRecord → PlaylistItemRecord → Type 0
  AreFree r s = IsClear (change r) s × IsClear (change s) (applied change r)

  abbrev pub AllFree : Rows → Type 0
  AllFree [] = Unit
  AllFree (r ∷ rs) = All (AreFree r) rs × AllFree rs

  abbrev DoneFree : Rows → Rows → Type 0
  DoneFree done rs = All (λ s. All (IsClear (change s)) done) rs

  not_refused :
      (o : Option PlaylistItemRecord) (others : Rows)
      → All (IsClear o) others
      → refused o others ≡ false
  not_refused none others h = refl
  not_refused (some r) [] h = refl
  not_refused (some r) (s ∷ ss) h = rw (h.0, not_refused (some r) ss h.1) refl

  DoneFree-snoc :
      (done : Rows) (r : PlaylistItemRecord) (rs : Rows)
      → DoneFree done rs
      → All (AreFree r) rs
      → DoneFree (done ++ applied change r ∷ []) rs
  DoneFree-snoc done r [] h f = tt
  DoneFree-snoc done r (s ∷ ss) h f = (
    All-append (IsClear (change s)) done (applied change r ∷ []) h.0 (f.0.1, tt),
    DoneFree-snoc done r ss h.1 f.1,
  )

  update_each-from :
      (done rs : Rows)
      → DoneFree done rs
      → AllFree rs
      → update_each change done rs ≡ some (done ++ map (applied change) rs)
  unfolding update_each
  update_each-from done [] h f = rw (append-nil done) refl
  update_each-from done (r ∷ rs) h f =
      let clear =
        not_refused (change r) (done ++ rs)
          (All-append (IsClear (change r)) done rs h.0 (All-map (λ s p. p.0) rs f.0)) in
      rw (clear, update_each)
        (update_each-from (done ++ applied change r ∷ []) rs (DoneFree-snoc done r rs h.1 f.0) f.1
          ∙ rw (append_assoc done (applied change r ∷ []) (map (applied change) rs)) refl)

  DoneFree-nil : (rs : Rows) → DoneFree [] rs
  DoneFree-nil [] = tt
  DoneFree-nil (r ∷ rs) = (tt, DoneFree-nil rs)

  pub update_each-AllFree :
      (rs : Rows) → AllFree rs → update_each change [] rs ≡ some (map (applied change) rs)
  update_each-AllFree rs f = update_each-from [] rs (DoneFree-nil rs) f

  from_done :
      (done : Rows) (rs : Rows) {out : Rows}
      → update_each change done rs ≡ some out
      → out ≡ done ++ map (applied change) rs
  unfolding update_each
  from_done done [] e = sym (append-nil done ∙ some-injective e)
  from_done done (r ∷ rs) e = elim (Bool-cases (refused (change r) (done ++ rs))) [
    | inl h ↦ absurd (none≢some (rw (h, update_each) at e))
    | inr h ↦
        from_done (done ++ applied change r ∷ []) rs (rw (h, update_each) at e)
        ∙ append_assoc done (applied change r ∷ []) (map (applied change) rs)
  ]

  -- A batch that is not refused changes each row by itself.
  pub update_each-applied :
      (rs : Rows) {out : Rows} → update_each change [] rs ≡ some out → out ≡ map (applied change) rs
  update_each-applied rs e = from_done [] rs e
