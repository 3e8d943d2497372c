-- ===== src/Pacemaker/Notices.antt =====
-- What the pacemaker tells staging.
use powder_raft.Common.{
  ℕ, length, ltb, Bool, refl, All-append, true, inr, arith, ap, List, inl, leb, Bool-cases, false,
  All, ◌≡◌, ◌≤◌, ◌<◌, ◌++◌, ◌∷◌, ◌&&◌, ◌⊎◌, [], remove-All,
}
use powder_raft.Pacemaker.{
  update_view, Pacemaker, notify_view, answer, Command, backfill_nack, Forks, new_view_forks,
  Key-discrete, notify_new_view,
}
use powder_raft.Pacemaker.Buffer.{IsGathered}
use powder_raft.Config.{new_view_bcast_threshold, Config, pacemaker_view_update_threshold}

-- Rising views, the last of which is `top` at most.
abbrev pub Ascending : List ℕ → ℕ → Type 0
Ascending [] top = Unit {0}
Ascending (v ∷ vs) top = (v ≤ top) × (All (λ w. v < w) vs × Ascending vs top)

All_below :
    (v top : ℕ) (vs : List ℕ) → v < top → All (λ w. v < w) vs → All (λ w. v < w) (vs ++ top ∷ [])
All_below v top vs h a = All-append (λ w. v < w) vs (top ∷ []) a (h, tt)

Ascending-append :
    (vs : List ℕ) (old top : ℕ) → old < top → Ascending vs old → Ascending (vs ++ top ∷ []) top
Ascending-append [] old top h a = (omega arith, (tt, tt))
Ascending-append (v ∷ vs) old top h a = (
  omega (arith, h, a.0),
  (All_below v top vs (omega (arith, h, a.0)) a.1.0, Ascending-append vs old top h a.1.1),
)

-- The views of the updates, and of the new views.
abbrev pub updates : List Command → List ℕ
updates [] = []
updates (update_view v c ∷ cmds) = v ∷ updates cmds
updates (new_view_forks _ _ _ ∷ cmds) = updates cmds
updates (backfill_nack _ _ _ _ ∷ cmds) = updates cmds
updates (answer _ ∷ cmds) = updates cmds

abbrev pub new_views : List Command → List ℕ
new_views [] = []
new_views (new_view_forks v c forks ∷ cmds) = v ∷ new_views cmds
new_views (update_view _ _ ∷ cmds) = new_views cmds
new_views (backfill_nack _ _ _ _ ∷ cmds) = new_views cmds
new_views (answer _ ∷ cmds) = new_views cmds

-- A new view has enough messages of different senders, all of that view.
abbrev pub IsBacked : Config → Command → Type 0
IsBacked config (new_view_forks v c forks) =
    (new_view_bcast_threshold config ≤ length forks) × IsGathered ((v, c), forks)
IsBacked config _ = Unit {0}

pub record IsValid (s : Pacemaker) : Type 0 where
  pub gathered : All IsGathered s.vc_buffer
  pub updated : Ascending (updates s.sent) s.last_view_notified
  pub viewed : Ascending (new_views s.sent) s.last_new_viewed_view
  pub backed : All (IsBacked s.config) s.sent

updates-append : (xs ys : List Command) → updates (xs ++ ys) ≡ updates xs ++ updates ys
updates-append [] ys = refl
updates-append (update_view v c ∷ xs) ys = ap (λ vs. v ∷ vs) (updates-append xs ys)
updates-append (new_view_forks _ _ _ ∷ xs) ys = updates-append xs ys
updates-append (backfill_nack _ _ _ _ ∷ xs) ys = updates-append xs ys
updates-append (answer _ ∷ xs) ys = updates-append xs ys

new_views-append : (xs ys : List Command) → new_views (xs ++ ys) ≡ new_views xs ++ new_views ys
new_views-append [] ys = refl
new_views-append (new_view_forks v c forks ∷ xs) ys = ap (λ vs. v ∷ vs) (new_views-append xs ys)
new_views-append (update_view _ _ ∷ xs) ys = new_views-append xs ys
new_views-append (backfill_nack _ _ _ _ ∷ xs) ys = new_views-append xs ys
new_views-append (answer _ ∷ xs) ys = new_views-append xs ys

append_nothing : {A : Type 0} (xs : List A) → xs ≡ xs ++ []
append_nothing [] = refl
append_nothing (x ∷ xs) = ap (λ ys. x ∷ ys) (append_nothing xs)

-- A message that is no notice to staging.
pub quiet-IsValid :
    (cmd : Command) (s : Pacemaker)
    → updates (cmd ∷ []) ≡ []
    → new_views (cmd ∷ []) ≡ []
    → IsBacked s.config cmd
    → IsValid s
    → IsValid (record s { sent = s.sent ++ cmd ∷ [] })
quiet-IsValid cmd s u n b v = record {
  gathered = v.gathered;
  updated = rw (updates-append s.sent (cmd ∷ []), u, ← append_nothing (updates s.sent)) v.updated;
  viewed = rw (new_views-append s.sent (cmd ∷ []), n, ← append_nothing (new_views s.sent)) v.viewed;
  backed = All-append (IsBacked s.config) s.sent (cmd ∷ []) v.backed (b, tt);
}

pub notify_view-IsValid :
    (view config : ℕ) (forks : Forks) (s : Pacemaker)
    → IsValid s
    → IsValid (notify_view view config forks s)
unfolding notify_view
notify_view-IsValid view config forks s v = go (Bool-cases notifies)
  where
    notifies : Bool
    notifies =
        leb (pacemaker_view_update_threshold s.config) (length forks)
        && ltb s.last_view_notified view

    go : (notifies ≡ true) ⊎ (notifies ≡ false) → IsValid (notify_view view config forks s)
    go (inl e) =
        rw (notify_view, e)
          (record {
            gathered = v.gathered;
            updated = rw (updates-append s.sent (update_view view config ∷ [])) (
                Ascending-append (updates s.sent) s.last_view_notified view (ground (arith, e))
                  v.updated);
            viewed =
                rw
                  (
                    new_views-append s.sent (update_view view config ∷ []),
                    ← append_nothing (new_views s.sent),
                  )
                  v.viewed;
            backed = All-append (IsBacked s.config) s.sent _ v.backed (tt, tt);
          })
    go (inr e) = rw (notify_view, e) v

pub notify_new_view-IsValid :
    (view config : ℕ) (forks : Forks) (s : Pacemaker)
    → IsGathered ((view, config), forks)
    → IsValid s
    → IsValid (notify_new_view view config forks s)
unfolding notify_new_view
notify_new_view-IsValid view config forks s g v = go (Bool-cases notifies)
  where
    notifies : Bool
    notifies =
        leb (new_view_bcast_threshold s.config) (length forks) && ltb s.last_new_viewed_view view

    go : (notifies ≡ true) ⊎ (notifies ≡ false) → IsValid (notify_new_view view config forks s)
    go (inl e) =
        rw (notify_new_view, e)
          (record {
            gathered = remove-All Key-discrete IsGathered (view, config) s.vc_buffer v.gathered;
            updated =
                rw
                  (
                    updates-append s.sent (new_view_forks view config forks ∷ []),
                    ← append_nothing (updates s.sent),
                  )
                  v.updated;
            viewed = rw (new_views-append s.sent (new_view_forks view config forks ∷ [])) (
                Ascending-append (new_views s.sent) s.last_new_viewed_view view (ground (arith, e))
                  v.viewed);
            backed = All-append (IsBacked s.config) s.sent _ v.backed ((ground (arith, e), g), tt);
          })
    go (inr e) = rw (notify_new_view, e) v
