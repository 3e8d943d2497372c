-- ===== src/ForkChoice/Rules.antt =====
-- Which fork is chosen where nothing can have gone the fast path.
use powder_raft.Common.{
  ℕ, ◌≤◌, ◌≡◌, refl, ap, inl, inr, true, List, [], ◌∷◌, ◌==◌, if◌then◌else◌, In, In-of_retain,
  arith, le-or-lt, In-retain, retain, ◌<◌, ◌⊎◌, length, All, map, ltb_of_lt,
}
use powder_raft.Types.{SenderType}
use powder_raft.ForkChoice.{
  ForkStat, Stats, max_by, qc_view, has_qc_view, filter_highest_qc_view, fork_choice_filter,
  filter_fast_path, filter_highest_view, filter_highest_len, matching_forks, done,
}
use powder_raft.Common.Outcome.{done}

module _ {ℓ} {A : Type ℓ} (f : A → ℕ) where
  le-max_by : (x : A) (xs : List A) → In x xs → f x ≤ max_by f xs
  unfolding max_by
  le-max_by x [] m = elim m [ ]
  le-max_by x (y ∷ ys) (inl e) = ground (arith, ap f e)
  le-max_by x (y ∷ ys) (inr m) = ground (arith, le-max_by x ys m)

  -- The maximum over a list that is not empty is reached.
  max_by-reached : (x : A) (xs : List A) → (y : A) × In y (x ∷ xs) × (f y ≡ max_by f (x ∷ xs))
  unfolding max_by
  max_by-reached x [] = (x, inl refl, ground arith)
  max_by-reached x (y ∷ ys) =
      let (z, at, e) = max_by-reached y ys in
      elim (le-or-lt (f x) (max_by f (y ∷ ys))) [
        | inl le ↦ (z, inr at, ground (arith, e))
        | inr lt ↦ (x, inl refl, ground arith)
      ]

abbrev Entry : Type 0
Entry = SenderType × ForkStat

highest_qc_view-number :
    (e : Entry) (stats : Stats)
    → In e stats
    → (if max_by (λ (e : Entry). qc_view e.1) stats == 0
        then true
        else has_qc_view (max_by (λ (e : Entry). qc_view e.1) stats) e.1)
      ≡ true
    → qc_view e.1 ≡ max_by (λ (e : Entry). qc_view e.1) stats
highest_qc_view-number e stats m t =
    ground (arith, le-max_by (λ (e : Entry). qc_view e.1) e stats m)

-- What the first rule keeps.
qc_view_kept :
    (e : Entry) (stats : Stats)
    → In e (filter_highest_qc_view stats)
    → In e stats × (qc_view e.1 ≡ max_by (λ (e : Entry). qc_view e.1) stats)
unfolding filter_highest_qc_view
qc_view_kept e stats m =
    let (at, t) = In-of_retain _ e stats m in (at, highest_qc_view-number e stats at t)

kept_qc_view :
    (e : Entry) (stats : Stats)
    → In e stats
    → qc_view e.1 ≡ max_by (λ (e : Entry). qc_view e.1) stats
    → In e (filter_highest_qc_view stats)
unfolding filter_highest_qc_view
kept_qc_view e stats m h = In-retain _ e stats m (ground (arith, h))

view_of : Entry → ℕ
view_of e = e.1.last_view

length_of : Entry → ℕ
length_of e = e.1.fork_last_n

-- The forks with the highest value.
top : (Entry → ℕ) → Stats → Stats
top f stats = retain (λ e. f e == max_by f stats) stats

In-of_top :
    (f : Entry → ℕ) (e : Entry) (stats : Stats)
    → In e (top f stats)
    → In e stats × (f e ≡ max_by f stats)
unfolding top
In-of_top f e stats m = let (at, t) = In-of_retain _ e stats m in (at, ground (arith, t))

In-top :
    (f : Entry → ℕ) (e : Entry) (stats : Stats)
    → In e stats
    → f e ≡ max_by f stats
    → In e (top f stats)
unfolding top
In-top f e stats m h = In-retain _ e stats m (ground (arith, h))

In-length {ℓ} : {A : Type ℓ} (x : A) (xs : List A) → In x xs → 0 < length xs
In-length x [] m = elim m [ ]
In-length x (y ∷ ys) m = omega arith

-- The forks that the three rules leave.
best : Stats → Stats
best stats = top length_of (top view_of (filter_highest_qc_view stats))

-- `e` has the higher certificate view; with the same one the higher last view; and with that the
-- longer fork, or the same length.
abbrev pub Beats : ForkStat → ForkStat → Type 0
Beats e e' =
    (qc_view e' < qc_view e)
    ⊎ ((qc_view e' ≡ qc_view e)
        × ((e'.last_view < e.last_view)
            ⊎ ((e'.last_view ≡ e.last_view) × (e'.fork_last_n ≤ e.fork_last_n))))

-- Within the forks of the highest certificate view.
top-Beats :
    (e e' : Entry) (kept : Stats)
    → In e (top length_of (top view_of kept))
    → In e' kept
    → (e'.1.last_view < e.1.last_view)
      ⊎ ((e'.1.last_view ≡ e.1.last_view) × (e'.1.fork_last_n ≤ e.1.fork_last_n))
unfolding view_of length_of
top-Beats e e' kept m m' =
    let (at, len) = In-of_top length_of e (top view_of kept) m in
    let (at', view) = In-of_top view_of e kept at in
    let le = le-max_by view_of e' kept m' in
    elim (le-or-lt e.1.last_view e'.1.last_view) [
      | inr lt ↦ inl lt
      | inl ge ↦
          let same : e'.1.last_view ≡ max_by view_of kept = omega (arith, view, le, ge) in
          inr (
            omega (arith, view, same),
            omega (
              arith,
              len,
              le-max_by length_of e' (top view_of kept) (In-top view_of e' kept m' same),
            ),
          )
    ]

best-Beats : (e e' : Entry) (stats : Stats) → In e (best stats) → In e' stats → Beats e.1 e'.1
unfolding best
best-Beats e e' stats m m' =
    let (at, _) = In-of_top length_of e (top view_of (filter_highest_qc_view stats)) m in
    let (at', _) = In-of_top view_of e (filter_highest_qc_view stats) at in
    let (_, q) = qc_view_kept e stats at' in
    let le = le-max_by (λ (e : Entry). qc_view e.1) e' stats m' in
    elim (le-or-lt (qc_view e.1) (qc_view e'.1)) [
      | inr lt ↦ inl lt
      | inl ge ↦
          let same : qc_view e'.1 ≡ max_by (λ (e : Entry). qc_view e.1) stats =
            omega (arith, q, le, ge) in
          inr (
            omega (arith, same, q),
            top-Beats e e' (filter_highest_qc_view stats) m (kept_qc_view e' stats m' same),
          )
    ]

best-In : (e : Entry) (stats : Stats) → In e (best stats) → In e stats
unfolding best
best-In e stats m =
    (qc_view_kept e stats
      (In-of_top view_of e _
        (In-of_top length_of e (top view_of (filter_highest_qc_view stats)) m).0).0).0

top_nonempty :
    (f : Entry → ℕ) (e : Entry) (stats : Stats) → In e stats → (e' : Entry) × In e' (top f stats)
top_nonempty f e [] m = elim m [ ]
top_nonempty f e (x ∷ xs) m =
    let (y, at, h) = max_by-reached f x xs in (y, In-top f y (x ∷ xs) at h)

best_nonempty : (e : Entry) (stats : Stats) → (e' : Entry) × In e' (best (e ∷ stats))
unfolding best
best_nonempty e stats =
    let (a, at, h) = max_by-reached (λ (e : Entry). qc_view e.1) e stats in
    let (b, bt) = top_nonempty view_of a _ (kept_qc_view a (e ∷ stats) at h) in
    top_nonempty length_of b _ bt

All-of_In {ℓ κ} : {A : Type ℓ} (P : A → Type κ) (xs : List A) → ((x : A) → In x xs → P x) → All P xs
All-of_In P [] h = tt
All-of_In P (x ∷ xs) h = (h x (inl refl), All-of_In P xs (λ y m. h y (inr m)))

-- If fewer forks than the threshold hold the highest certificate, the choice is not empty, and
-- each chosen fork is one of those offered and is at least as good as all of them: by the view
-- of its certificate, then by its last view, then by its last number.
pub fork_choice_filter-Beats :
    (thresh : ℕ) (e : SenderType × ForkStat) (stats : Stats)
    → matching_forks (filter_highest_qc_view (e ∷ stats)) < thresh
    → (chosen : Stats) × (fork_choice_filter thresh (e ∷ stats) ≡ done (map (λ c. c.0) chosen))
      × (0 < length chosen)
      × All (λ c. In c (e ∷ stats) × All (λ o. Beats c.1 o.1) (e ∷ stats)) chosen
unfolding fork_choice_filter filter_fast_path filter_highest_view filter_highest_len best top
    view_of length_of
fork_choice_filter-Beats thresh e stats lt = (
  best (e ∷ stats),
  rw (ltb_of_lt _ _ lt) refl,
  In-length _ _ (best_nonempty e stats).1,
  All-of_In _ (best (e ∷ stats)) (λ c m.
      (best-In c (e ∷ stats) m, All-of_In _ (e ∷ stats) (λ o m'. best-Beats c o (e ∷ stats) m m'))),
)
