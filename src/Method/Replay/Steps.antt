-- ===== src/Method/Replay/Steps.antt =====
-- One packet: the bitmap receiver of src/methods/common.c answers it as the one with a memory does.
use fastd.Base.{
  ℕ, zero, suc, ◌+◌, ◌-◌, ◌%◌, ◌≤◌, ◌<◌, ◌≡◌, refl, ap, ◌∙◌, none, some, List, arith, ltb,
  if◌then◌else◌, true, false, Bool-cases, lt→ltb, inl, inr,
}
use native.Mathlib.Decide.{dec_lt}
use fastd.Base.Int.{pos, negsuc}
use fastd.Base.Bits.{bit}
use fastd.Method.{Session, is_nonce_valid, age_window, reorder_check, reorder_time, timed_out}
use fastd.Method.Nonce.{value}
use fastd.Method.Replay.{receive, Receiver, same_half, mark, decide}
use fastd.Method.Replay.Tracks.{
  sequence, Tracks, FromPeer, Agree, receive-none, receive-some, valid-age, newer, later,
  Agree-same, Agree-via, reorder-drop, reorder-take, reorder-zero,
}

module _ (now : ℕ) (s : Session) (r : Receiver) (n : List ℕ) (t : Tracks s r)
    (p : FromPeer s n) where
  valid-newer :
      same_half (sequence n) r.newest ≡ true
      → r.newest < sequence n
      → is_nonce_valid now s n ≡ some (negsuc (sequence n - r.newest - 1))
  unfolding age_window
  valid-newer h lt = valid-age now s n t.nonce p ∙ rw (← t.newest) (rw h (ground arith))

  valid-late :
      same_half (sequence n) r.newest ≡ true
      → sequence n ≤ r.newest
      → is_nonce_valid now s n ≡ (
          if timed_out now s.reorder_timeout
          then none
          else if ltb 64 (r.newest - sequence n)
          then none
          else some (pos (r.newest - sequence n)))
  unfolding age_window
  valid-late h le = valid-age now s n t.nonce p ∙ rw (← t.newest) (rw h (ground arith))

  decide-half : same_half (sequence n) r.newest ≡ false → decide now r (sequence n) ≡ (r, none)
  unfolding decide
  decide-half h = rw h

  decide-newer :
      same_half (sequence n) r.newest ≡ true
      → r.newest < sequence n
      → decide now r (sequence n) ≡ (
        record r {
          newest = sequence n;
          seen = mark r.seen (sequence n);
          deadline = now + reorder_time;
        },
        some false,
      )
  unfolding decide
  decide-newer h lt = rw (h, lt→ltb r.newest (sequence n) lt)

  decide-late :
      same_half (sequence n) r.newest ≡ true
      → sequence n ≤ r.newest
      → decide now r (sequence n) ≡ (
          if timed_out now s.reorder_timeout
          then (r, none)
          else if ltb 64 (r.newest - sequence n)
          then (r, none)
          else if r.seen (sequence n)
          then (r, none)
          else (record r { seen = mark r.seen (sequence n) }, some true))
  unfolding decide
  decide-late h le = rw (h, not_newer, t.deadline)
    where
      not_newer : ltb r.newest (sequence n) ≡ false
      not_newer = ground arith

  receive-half :
      same_half (sequence n) r.newest ≡ false
      → Agree (value s.receive_nonce % 2) (receive now s n) (decide now r (sequence n))
  receive-half h =
      Agree-via (receive-none now s n none_valid) (decide-half h) (Agree-same s r t refl)
    where
      none_valid : is_nonce_valid now s n ≡ none
      none_valid = valid-age now s n t.nonce p ∙ rw (← t.newest) (rw h)

  receive-newer :
      same_half (sequence n) r.newest ≡ true
      → r.newest < sequence n
      → Agree (value s.receive_nonce % 2) (receive now s n) (decide now r (sequence n))
  receive-newer h lt =
      Agree-via (receive-some now s n _ (valid-newer h lt)) (decide-newer h lt) (record {
        answer = unfold reorder_check in refl;
        tracks = newer now s r n (sequence n - r.newest - 1) t p (omega arith);
        parity = unfold reorder_check in p.parity;
      })

  -- A late packet in the window, by its place in the bitmap.
  reorder-late :
      (i : ℕ)
      → i < 64
      → r.newest ≡ sequence n + suc i
      → Agree (value s.receive_nonce % 2) (reorder_check now s n (pos (suc i))) (
          if r.seen (sequence n)
          then (r, none)
          else (record r { seen = mark r.seen (sequence n) }, some true))
  reorder-late i hi e = elim (Bool-cases (r.seen (sequence n))) [
    | inl old ↦ Agree-via (reorder-drop now s n i (place ∙ rw old)) (rw old) (Agree-same s r t refl)
    | inr new ↦
        Agree-via (reorder-take now s n i (place ∙ rw new)) (rw new)
          (record { answer = refl; tracks = later now s r (sequence n) i t hi e; parity = refl })
  ]
    where
      back : r.newest - suc i ≡ sequence n
      back = omega arith

      place : bit s.receive_reorder_seen i ≡ (if r.seen (sequence n) then 1 else 0)
      place = t.bitmap i hi (omega arith) ∙ ap (λ k. if r.seen k then 1 else 0) back

  -- A late packet in the window and in time.
  reorder-window :
      (d : ℕ)
      → d ≤ 64
      → r.newest ≡ sequence n + d
      → Agree (value s.receive_nonce % 2) (reorder_check now s n (pos d)) (
          if r.seen (sequence n)
          then (r, none)
          else (record r { seen = mark r.seen (sequence n) }, some true))
  reorder-window zero hd e =
      let same : r.newest ≡ sequence n = omega arith in
      let old : r.seen (sequence n) ≡ true = rw (← same) t.newest_seen in
      Agree-via (reorder-zero now s n) (rw old) (Agree-same s r t refl)
  reorder-window (suc i) hd e = reorder-late i hd e

  receive-late :
      same_half (sequence n) r.newest ≡ true
      → sequence n ≤ r.newest
      → Agree (value s.receive_nonce % 2) (receive now s n) (decide now r (sequence n))
  receive-late h le = elim (Bool-cases (timed_out now s.reorder_timeout)) [
    | inl old ↦
        Agree-via (receive-none now s n (valid-late h le ∙ rw old)) (decide-late h le ∙ rw old)
          (Agree-same s r t refl)
    | inr new ↦ elim (Bool-cases (ltb 64 (r.newest - sequence n))) [
      | inl far ↦
          Agree-via (receive-none now s n (valid-late h le ∙ rw new (rw far)))
            (decide-late h le ∙ rw new (rw far)) (Agree-same s r t refl)
      | inr near ↦
          Agree-via
            (receive-some now s n (pos (r.newest - sequence n))
              (valid-late h le ∙ rw new (rw near)))
            (decide-late h le ∙ rw new (rw near))
            (reorder-window (r.newest - sequence n) (ground arith) (omega arith))
    ]
  ]

  pub receive-Agree :
      Agree (value s.receive_nonce % 2) (receive now s n) (decide now r (sequence n))
  receive-Agree = elim (Bool-cases (same_half (sequence n) r.newest)) [
    | inr other ↦ receive-half other
    | inl same ↦ elim (dec_lt r.newest (sequence n)) [
      | yes lt ↦ receive-newer same lt
      | no ge ↦ receive-late same (omega arith)
    ]
  ]
