-- ===== src/ForkReceiver/Blocked.antt =====
-- The invariant that `ForkReceiver` states: it is blocked exactly while parts wait.
use powder_raft.Common.{
  ℕ, true, length, zero, suc, refl, map, Bool, back, map_or, arith, ltb, false, List, ltb_of_lt,
  sym, if_both, ◌≡◌, ◌∷◌, ◌==◌, [], if◌then◌else◌, ap, ◌∙◌, ◌||◌, drop, ◌≤◌,
}
use powder_raft.Common.Outcome.{
  IfDone-after, done, IfDone, panicked, IfDone-bind, IfDone-map, ◌>>=◌,
}
use powder_raft.ForkReceiver.{
  ForkReceiver, Answers, first_block_n, forward_part, forward_parts, Part, send_nack, stats_of,
  no_hash,
}
use powder_raft.Types.{AppendEntries, Name, HalfSerializedBlock, anon, auth}
use powder_raft.ForkReceiver.Commands.{
  unblock, accept_fork, process_fork, fork_arrives, handle_command, update_view, forward_next,
  Event, worker, move_to_view, command_arrives, multipart_nack, use_backfill_response, refuse_parts,
  maybe_legit,
}
use powder_raft.Staging.State.{AppendEntriesStats}
use powder_raft.ForkReceiver.Cases.{process_fork-cases, accept_fork-cases}
use powder_raft.Crypto.{Crypto}
use powder_raft.Staging.NewView.{name_of}

abbrev pub IsValid : ForkReceiver → Type 0
IsValid s = s.blocked_on_multipart ≡ ltb 0 (length s.multipart_buffer)

emptied :
    (n : ℕ) (blocked : Bool)
    → (ltb 0 n ≡ true → blocked ≡ true)
    → (if n == 0 then false else blocked) ≡ ltb 0 n
emptied zero blocked h = refl
emptied (suc n) blocked h = ground (arith, h (ltb_of_lt 0 (suc n) (omega arith)))

unblock-IsValid :
    (s : ForkReceiver)
    → (ltb 0 (length s.multipart_buffer) ≡ true → s.blocked_on_multipart ≡ true)
    → IsValid (unblock s)
unblock-IsValid s h = emptied (length s.multipart_buffer) s.blocked_on_multipart h

send_nack-IsValid :
    (answers : Answers) (sender : Name) (ae : AppendEntries) (s : ForkReceiver)
    → IsValid s
    → IfDone IsValid (send_nack answers sender ae s)
unfolding send_nack
send_nack-IsValid answers sender ae s v = IfDone-after IsValid (first_block_n ae) _ (λ n. v)

-- A part that goes on leaves the others alone.
abbrev SameBuffer : ForkReceiver → ForkReceiver → Type 0
SameBuffer s s' =
    (s'.multipart_buffer ≡ s.multipart_buffer) × (s'.blocked_on_multipart ≡ s.blocked_on_multipart)

forward_part-SameBuffer :
    (part : Part) (remaining_parts : ℕ) (ae_stats : AppendEntriesStats) (s : ForkReceiver)
    → IfDone (SameBuffer s) (forward_part part remaining_parts ae_stats s)
unfolding forward_part
forward_part-SameBuffer part remaining_parts ae_stats s =
    IfDone-after (SameBuffer s) (map_or panicked done (back part)) _ (λ b. (refl, refl))

forward_parts-IsValid :
    (ae : AppendEntries) (sender : Name) (parts : List Part) (s : ForkReceiver)
    → IsValid s
    → IfDone IsValid (forward_parts ae sender parts s)
unfolding forward_parts
forward_parts-IsValid ae sender [] s v = v
forward_parts-IsValid ae sender (first_part ∷ parts) s v =
    IfDone-bind (SameBuffer s) IsValid
      (forward_part first_part (length parts) (stats_of ae sender) s) _
      (forward_part-SameBuffer first_part (length parts) (stats_of ae sender) s)
      λ s' same. go parts s' same
  where
    go :
        (rest : List Part) (s' : ForkReceiver)
        → SameBuffer s s'
        → IfDone IsValid (
            if ltb 0 (length rest)
            then if length s'.multipart_buffer == 0
              then done (record s' {
                multipart_buffer = map (λ part. (part, stats_of ae sender)) rest;
                blocked_on_multipart = true;
              })
              else panicked
            else done s')
    go [] s' same = rw (same.0, same.1) v
    go (p ∷ rest) s' same =
        if_both (IfDone IsValid) (ltb 0 (length (p ∷ rest))) _ _
          (if_both (IfDone IsValid) (length s'.multipart_buffer == 0) _ _
            (sym (ltb_of_lt 0 _ (omega arith))) tt)
          (rw (same.0, same.1) v)

accept_fork-IsValid :
    (answers : Answers) (ae : AppendEntries) (sender : Name) (blocks : List HalfSerializedBlock)
    (s : ForkReceiver)
    → IsValid s
    → IfDone IsValid (accept_fork answers ae sender blocks s)
accept_fork-IsValid answers ae sender blocks s v =
    accept_fork-cases IsValid answers ae sender blocks s
      (λ _. send_nack-IsValid answers sender ae s v) (λ _. v)
      (λ top parts _ _ _. forward_parts-IsValid ae sender parts _ v)

process_fork-IsValid :
    (crypto : Crypto) (answers : Answers) (ae : AppendEntries) (sender : Name) (s : ForkReceiver)
    → IsValid s
    → IfDone IsValid (process_fork crypto answers ae sender s)
process_fork-IsValid crypto answers ae sender s v =
    process_fork-cases IsValid crypto answers ae sender s (λ _. v) (λ _. v)
      λ _ _ s' same blocks _.
        let v' = same.same_blocked ∙ v ∙ ap (λ m. ltb 0 (length m)) (sym same.same_buffer) in
        (
          (λ _. send_nack-IsValid answers sender ae s' v'),
          (λ _. accept_fork-IsValid answers ae sender blocks s' v'),
        )

forward_next-IsBlocked :
    (s : ForkReceiver)
    → IsValid s
    → IfDone
        (λ s'. ltb 0 (length s'.multipart_buffer) ≡ true → s'.blocked_on_multipart ≡ true)
        (forward_next s)
unfolding forward_next
forward_next-IsBlocked s v = go s.multipart_buffer refl
  where
    StaysBlocked : ForkReceiver → Type 0
    StaysBlocked s' = ltb 0 (length s'.multipart_buffer) ≡ true → s'.blocked_on_multipart ≡ true

    go :
        (m : List (Part × AppendEntriesStats))
        → s.multipart_buffer ≡ m
        → IfDone StaysBlocked (elim m [
          | [] ↦ done s
          | (part, ae_stats) ∷ rest ↦ maybe_legit (length rest) ae_stats s >>= λ legit. elim legit [
            | true ↦ forward_part part (length rest) ae_stats (record s { multipart_buffer = rest })
            | false ↦ done (record s { multipart_buffer = rest })
          ]
        ])
    go [] e = λ h. v ∙ h
    go ((part, ae_stats) ∷ rest) e =
        IfDone-after StaysBlocked (maybe_legit (length rest) ae_stats s) _ λ legit. sent legit
      where
        blocked : s.blocked_on_multipart ≡ true
        blocked = v ∙ rw e (ltb_of_lt 0 (suc (length rest)) (omega arith))

        sent :
            (legit : Bool)
            → IfDone StaysBlocked (elim legit [
              | true ↦
                  forward_part part (length rest) ae_stats (record s { multipart_buffer = rest })
              | false ↦ done (record s { multipart_buffer = rest })
            ])
        sent true =
            IfDone-map (SameBuffer (record s { multipart_buffer = rest })) StaysBlocked _
              (λ s' same _. same.1 ∙ blocked)
              (forward_part-SameBuffer part (length rest) ae_stats
                (record s { multipart_buffer = rest }))
        sent false = λ _. blocked

update_view-IsValid :
    (view config_num : ℕ) (s : ForkReceiver)
    → IsValid s
    → IfDone IsValid (update_view view config_num s)
unfolding update_view
update_view-IsValid view config_num s v =
    IfDone-bind (λ s'. ltb 0 (length s'.multipart_buffer) ≡ true → s'.blocked_on_multipart ≡ true)
      IsValid (if ltb s.config_num config_num then forward_next moved else done moved) _
      (if_both
        (IfDone λ s'. ltb 0 (length s'.multipart_buffer) ≡ true → s'.blocked_on_multipart ≡ true)
        (ltb s.config_num config_num) _ _ (forward_next-IsBlocked moved v) (λ h. v ∙ h))
      unblock-IsValid
  where
    moved : ForkReceiver
    moved = record s {
      last_ae_view = if s.view == view then s.last_ae_view else view;
      last_ae_block_hash = if s.view == view then s.last_ae_block_hash else no_hash;
      view = view;
      config_num = config_num;
    }

length-drop : {A : Type 0} (n : ℕ) (xs : List A) → length (drop n xs) ≤ length xs
length-drop zero xs = omega arith
length-drop (suc n) [] = omega arith
length-drop (suc n) (x ∷ xs) = omega (arith, length-drop n xs)

multipart_nack-IsValid :
    (n : ℕ) (s : ForkReceiver) → IsValid s → IfDone IsValid (multipart_nack n s)
unfolding multipart_nack
multipart_nack-IsValid n s v =
    if_both (IfDone IsValid) (n == length s.multipart_buffer) _ _
      (unblock-IsValid (record s { multipart_buffer = drop n s.multipart_buffer })
        λ h. v ∙ ground (arith, h, length-drop n s.multipart_buffer))
      tt

-- Every event that the fork receiver handles keeps the invariant that it is blocked exactly while
-- parts wait.
pub worker-IsValid :
    (crypto : Crypto) (answers : Answers) (event : Event) (s : ForkReceiver)
    → IsValid s
    → IfDone IsValid (worker crypto answers event s)
unfolding worker handle_command
worker-IsValid crypto answers (command_arrives (move_to_view view config_num)) s v =
    update_view-IsValid view config_num s v
worker-IsValid crypto answers (command_arrives (refuse_parts n)) s v = multipart_nack-IsValid n s v
worker-IsValid crypto answers (command_arrives (use_backfill_response ae sender)) s v =
    process_fork-IsValid crypto answers ae (name_of sender) s v
worker-IsValid crypto answers (fork_arrives ae anon) s v = v
worker-IsValid crypto answers (fork_arrives ae (auth sender id)) s v =
    if_both (IfDone IsValid) (s.blocked_on_multipart || s.waiting_on_nack_reply) _ _ v
      (process_fork-IsValid crypto answers ae sender s v)
