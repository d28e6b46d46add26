-- ===== src/Scheduling/Reconcile/Steps.antt =====
-- What one round of the reconciliation does to the statuses.
use wildfire.Base.{
  distinct, includes, ◌≡◌, refl, sym, ap, ◌∙◌, ◌⊎◌, inl, inr, true, false, not, String, ◌==◌,
  eq_iff, Option, none, some, List, [], ◌∷◌, map, filter, find, All, arith, Bool-cases,
  Option-cases,
}
use wildfire.Store.{Store, PlaylistRecord, PlaylistStatus, draft, in_use, status_eq}
use wildfire.Store.Playlists.{find_playlist, update_status}
use wildfire.Store.Schedules.{count_unfinished_by_playlist}
use wildfire.Scheduling.Reconcile.{next_status, set_status, reconcile_one, reconcile_loop}

-- If the playlist exists, it is in use exactly where a schedule that is not finished names it.
abbrev pub IsSettled : String → String → Store → String → Type 0
IsSettled date time st id =
    (p : PlaylistRecord)
    → find_playlist id st ≡ some p
    → p.status ≡ next_status (count_unfinished_by_playlist id date time st)

status_eq-true : (a b : PlaylistStatus) → status_eq a b ≡ true → a ≡ b
status_eq-true draft draft e = refl
status_eq-true in_use in_use e = refl
status_eq-true draft in_use e = cc
status_eq-true in_use draft e = cc

status_eq_refl : (a : PlaylistStatus) → status_eq a a ≡ true
status_eq_refl draft = refl
status_eq_refl in_use = refl

-- The status that a run over the table finds after one `UPDATE`.
find-set_status :
    (id x : String) (status : PlaylistStatus) (at : String) (st : Store) {p : PlaylistRecord}
    → find_playlist x (set_status id status at st) ≡ some p
    → ((id ≡ x) × (p.status ≡ status)) ⊎ (((id == x) ≡ false) × (find_playlist x st ≡ some p))
unfolding find_playlist set_status update_status
find-set_status id x status at st {p} h = go st.playlists h
  where
    go :
        (ps : List PlaylistRecord)
        → find
            (λ p. p.id == x)
            (update_status id status at (record st { playlists = ps })).playlists
          ≡ some p
        → ((id ≡ x) × (p.status ≡ status))
          ⊎ (((id == x) ≡ false) × (find (λ p. p.id == x) ps ≡ some p))
    go [] h = absurd (cc)
    go (q ∷ ps) h = elim (Bool-cases (q.id == id)) [
      | inl e ↦ elim (Bool-cases (q.id == x)) [
        | inl f ↦
            inl (sym ((eq_iff q.id id).0 e) ∙ (eq_iff q.id x).0 f, replaced (rw f at (rw e at h)))
        | inr f ↦ rw f (go ps (rw f at (rw e at h)))
      ]
      | inr e ↦ elim (Bool-cases (q.id == x)) [
        | inl f ↦ rw f (inr (differs e f, rw f at (rw e at h)))
        | inr f ↦ rw f (go ps (rw f at (rw e at h)))
      ]
    ]
      where
        replaced : {q' p : PlaylistRecord} → some q' ≡ some p → p.status ≡ q'.status
        replaced e = cc

        differs : (q.id == id) ≡ false → (q.id == x) ≡ true → (id == x) ≡ false
        differs e f = ground (arith, eq_iff q.id x, eq_iff id x, eq_iff q.id id)

set_status-count :
    (id x date time : String) (status : PlaylistStatus) (at : String) (st : Store)
    → count_unfinished_by_playlist x date time (set_status id status at st)
      ≡ count_unfinished_by_playlist x date time st
unfolding count_unfinished_by_playlist set_status update_status
set_status-count id x date time status at st = refl

-- Setting the status that is due keeps what was settled, and settles the playlist itself.
set_status_settles :
    (date time id x : String) (at : String) (st : Store)
    → (id ≡ x) ⊎ IsSettled date time st x
    → IsSettled date time
        (set_status id (next_status (count_unfinished_by_playlist id date time st)) at st)
        x
set_status_settles date time id x at st known p found =
    let status = next_status (count_unfinished_by_playlist id date time st) in
    rw (set_status-count id x date time status at st)
      (elim (find-set_status id x status at st found) [
        | inl (e, s) ↦ s ∙ ap (λ y. next_status (count_unfinished_by_playlist y date time st)) e
        | inr (n, f) ↦ elim known [ inl e ↦ absurd (ground (arith, eq_iff id x)) | inr h ↦ h p f ]
      ])

due_status_settles :
    (date time id x : String) (st : Store) {q : PlaylistRecord}
    → find_playlist id st ≡ some q
    → q.status ≡ next_status (count_unfinished_by_playlist id date time st)
    → id ≡ x
    → IsSettled date time st x
due_status_settles date time id x st {q} e s same p found =
    let both : some q ≡ some p = sym e ∙ ap (λ y. find_playlist y st) same ∙ found in
    sym (ap (λ o. elim o [ none ↦ q.status | some r ↦ r.status ]) both)
    ∙ s
    ∙ ap (λ y. next_status (count_unfinished_by_playlist y date time st)) same

reconcile_one-settles :
    (date time at id x : String) (st : Store)
    → (id ≡ x) ⊎ IsSettled date time st x
    → IsSettled date time (reconcile_one date time at id st).1 x
unfolding reconcile_one
reconcile_one-settles date time at id x st known = elim (Option-cases (find_playlist id st)) [
  | inl e ↦ rw (e, reconcile_one) (elim known [ inl same ↦ λ p f. absurd (cc) | inr h ↦ h ])
  | inr (q, e) ↦
      rw (e, reconcile_one)
        (elim (Bool-cases
          (status_eq q.status (next_status (count_unfinished_by_playlist id date time st)))) [
            | inl f ↦ rw f (elim known [
              | inl same ↦ due_status_settles date time id x st e (status_eq-true _ _ f) same
              | inr h ↦ h
            ])
            | inr f ↦ rw f (set_status_settles date time id x at st known)
          ])
]

-- A run over a list settles each playlist of the list, and unsettles none.
pub reconcile_loop-settles :
    (date time at : String) (ids : List String) (x : String) (st : Store)
    → (includes ids x ≡ true) ⊎ IsSettled date time st x
    → IsSettled date time (reconcile_loop date time at ids st).1 x
unfolding reconcile_loop
reconcile_loop-settles date time at [] x st known = elim known [ inl e ↦ absurd (cc) | inr h ↦ h ]
reconcile_loop-settles date time at (id ∷ ids) x st known =
    reconcile_loop-settles date time at ids x (reconcile_one date time at id st).1 (elim known [
      | inl e ↦ elim (Bool-cases (id == x)) [
        | inl f ↦ inr (reconcile_one-settles date time at id x st (inl ((eq_iff id x).0 f)))
        | inr f ↦ inl (rw f at e)
      ]
      | inr h ↦ inr (reconcile_one-settles date time at id x st (inr h))
    ])

-- Where everything listed is settled, a run changes nothing.
pub reconcile_loop-idle :
    (date time at : String) (ids : List String) (st : Store)
    → All (IsSettled date time st) ids
    → reconcile_loop date time at ids st ≡ (0, st)
unfolding reconcile_loop reconcile_one
reconcile_loop-idle date time at [] st h = refl
reconcile_loop-idle date time at (id ∷ ids) st h =
    rw (idle, reconcile_loop) (rw (reconcile_loop-idle date time at ids st h.1) refl)
  where
    idle : reconcile_one date time at id st ≡ (0, st)
    idle = elim (Option-cases (find_playlist id st)) [
      | inl e ↦ rw (e, reconcile_one) refl
      | inr (q, e) ↦ rw (e, reconcile_one) (rw (sym (h.0 q e), status_eq_refl q.status) refl)
    ]

-- The ids that a call is about.
abbrev pub listed : Option (List String) → Store → List String
listed none st = map (λ p. p.id) st.playlists
listed (some ids) st = ids

pub includes-distinct :
    (ids : List String) (x : String) → includes (distinct ids) x ≡ includes ids x
unfolding distinct
includes-distinct [] x = refl
includes-distinct (id ∷ ids) x = elim (Bool-cases (id == x)) [
  | inl e ↦ rw e refl
  | inr e ↦ rw e (others e (distinct ids) ∙ includes-distinct ids x)
]
  where
    others :
        (id == x) ≡ false
        → (l : List String) → includes (filter (λ y. not (y == id)) l) x ≡ includes l x
    others e [] = refl
    others e (y ∷ ys) = ground (arith, others e ys, eq_iff y id, eq_iff y x, eq_iff id x)
