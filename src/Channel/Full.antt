-- ===== src/Channel/Full.antt =====
-- `sem_chan_send_mpsc` and `sem_chan_recv_mpsc` of src/channel.c on a full channel.
use epx_c.Base.{
  ℕ, zero, suc, map, ◌+◌, ◌-◌, ◌<◌, ◌≡◌, refl, sym, subst, ap, ◌∙◌, append-nil, append_assoc,
  length-append, Bool, true, false, Option, none, some, List, [], ◌∷◌, ◌++◌, length, arith,
}
use epx_c.Channel.{
  CkRing, CkRingLaws, Kind, Chan, capacity_of_chan, chan_init_sem, sem_chan_send_mpsc,
  sem_chan_recv_mpsc,
}

-- what `n` calls of `sem_chan_recv_mpsc` give, one after the other
abbrev pub recv_many : {x : CkRing} → ℕ → Chan x → Option (List (Option ℕ))
recv_many zero c = some []
recv_many (suc n) c = elim (sem_chan_recv_mpsc c) [
  | none ↦ none
  | some (r, c') ↦ elim (recv_many n c') [ none ↦ none | some rs ↦ some (r ∷ rs) ]
]

-- what calls of `sem_chan_send_mpsc` give, one after the other, and the channel
abbrev pub send_many : {x : CkRing} → List ℕ → Chan x → Option (List Bool × Chan x)
send_many [] c = some ([], c)
send_many (p ∷ ps) c = elim (sem_chan_send_mpsc c p) [
  | none ↦ none
  | some (done, c') ↦ elim (send_many ps c') [
    | none ↦ none
    | some (rest, c'') ↦ some (done ∷ rest, c'')
  ]
]

send_many_step :
    {x : CkRing} (p : ℕ) (ps : List ℕ) (c c1 c2 : Chan x) (rest : List Bool)
    → sem_chan_send_mpsc c p ≡ some (true, c1)
    → send_many ps c1 ≡ some (rest, c2)
    → send_many (p ∷ ps) c ≡ some (true ∷ rest, c2)
send_many_step p ps c c1 c2 rest e f = ground arith

recv_many_step :
    {x : CkRing} (n : ℕ) (c : Chan x) (r : Option ℕ) (c' : Chan x) (rs : List (Option ℕ))
    → sem_chan_recv_mpsc c ≡ some (r, c')
    → recv_many n c' ≡ some rs
    → recv_many (suc n) c ≡ some (r ∷ rs)
recv_many_step n c r c' rs e f = ground arith

module _ {x : CkRing} (l : CkRingLaws x) where
  send_full :
      (c : Chan x) (p n : ℕ)
      → c.s_sem ≡ suc n
      → x.enqueue Kind.mpsc c.ring p ≡ (false, c.ring)
      → sem_chan_send_mpsc c p ≡ some (false, record c { s_sem = n; c_sem = c.c_sem + 1 })
  unfolding sem_chan_send_mpsc
  send_full c p n e f = ground arith

  recv_empty :
      (c : Chan x) (n : ℕ)
      → c.c_sem ≡ suc n
      → x.dequeue Kind.mpsc c.ring ≡ (none, c.ring)
      → sem_chan_recv_mpsc c ≡ some (none, record c { c_sem = n; s_sem = c.s_sem + 1 })
  unfolding sem_chan_recv_mpsc
  recv_empty c n e f = ground arith

  recv_some :
      (c : Chan x) (n p : ℕ) (r : x.Ring)
      → c.c_sem ≡ suc n
      → x.dequeue Kind.mpsc c.ring ≡ (some p, r)
      → sem_chan_recv_mpsc c ≡ some (some p, record { ring = r; c_sem = n; s_sem = c.s_sem + 1 })
  unfolding sem_chan_recv_mpsc
  recv_some c n p r e f = ground arith

  drained :
      (ps : List ℕ) (c : Chan x)
      → l.entries c.ring ≡ ps
      → c.c_sem ≡ suc (length ps)
      → recv_many (suc (length ps)) c ≡ some (map some ps ++ (none ∷ []))
  drained [] c e f =
      recv_many_step 0 c none (record c { c_sem = 0; s_sem = c.s_sem + 1 }) []
        (recv_empty c 0 f (l.dequeue_none Kind.mpsc c.ring e)) refl
  drained (p ∷ ps) c e f =
      let (r, g, h, _) = l.dequeue_some Kind.mpsc c.ring p ps e in
      let rest =
        drained ps (record { ring = r; c_sem = suc (length ps); s_sem = c.s_sem + 1 }) h refl in
      recv_many_step (suc (length ps)) c (some p) _ (map some ps ++ (none ∷ []))
        (recv_some c (suc (length ps)) p r f g) rest

  send_room :
      (c : Chan x) (p n : ℕ)
      → c.s_sem ≡ suc n
      → length (l.entries c.ring) + 1 < l.places c.ring
      → (r : x.Ring) × (sem_chan_send_mpsc c p
          ≡ some (true, record { ring = r; s_sem = n; c_sem = c.c_sem + 1 }))
        × (l.entries r ≡ l.entries c.ring ++ (p ∷ []))
        × (l.places r ≡ l.places c.ring)
  unfolding sem_chan_send_mpsc
  send_room c p n e room =
      let (r, f, g, h) = l.enqueue_room Kind.mpsc c.ring p room in (r, ground arith, g, h)

  -- a channel that holds `ps`, as its semaphores tell
  record Holds (ps : List ℕ) (c : Chan x) : Type 0 where
    pub places_are : l.places c.ring ≡ capacity_of_chan
    pub entries_are : l.entries c.ring ≡ ps
    pub to_receive : c.c_sem ≡ length ps
    pub to_send : c.s_sem + length ps ≡ capacity_of_chan

  filled :
      (done ps : List ℕ) (c : Chan x)
      → Holds done c
      → length done + length ps < capacity_of_chan
      → (c' : Chan x) × (send_many ps c ≡ some (map (λ p. true) ps, c')) × Holds (done ++ ps) c'
  filled done [] c h room = (c, refl, subst (λ qs. Holds qs c) (sym (append-nil done)) h)
  filled done (p ∷ ps) c h room =
      let n : ℕ = capacity_of_chan - suc (length done) in
      let (r, sent, es, pl) =
        send_room c p n (omega (arith, h.to_send))
          (omega (arith, h.places_are, ap length h.entries_are)) in
      let c1 : Chan x = record { ring = r; s_sem = n; c_sem = c.c_sem + 1 } in
      let (c2, rest, held) =
        filled (done ++ (p ∷ [])) ps c1
          (record {
            places_are = pl ∙ h.places_are;
            entries_are = es ∙ ap (λ qs. qs ++ (p ∷ [])) h.entries_are;
            to_receive = omega (arith, h.to_receive, length-append done (p ∷ []));
            to_send = omega (arith, h.to_send, length-append done (p ∷ []));
          })
          (omega (arith, length-append done (p ∷ []))) in
      (
        c2,
        send_many_step p ps c c1 c2 (map (λ q. true) ps) sent rest,
        subst (λ qs. Holds qs c2) (append_assoc done (p ∷ []) ps) held,
      )

  -- Where as many values as a channel with semaphores holds, one less than its capacity, are sent
  -- from its start, each call of `sem_chan_send_mpsc` returns 1. The next call is let in and
  -- returns 0, without its entry, but posts `c_sem`; the receivers then get the values that were
  -- sent, in their order, and one receives nothing, instead of being blocked.
  pub sem_chan_send_mpsc-full :
      (c : Chan x) (ps : List ℕ) (p : ℕ)
      → suc (length ps) ≡ capacity_of_chan
      → (c1 : Chan x) × (c2 : Chan x) × (send_many ps (chan_init_sem c)
          ≡ some (map (λ q. true) ps, c1))
        × (sem_chan_send_mpsc c1 p ≡ some (false, c2))
        × (recv_many (suc (length ps)) c2 ≡ some (map some ps ++ (none ∷ [])))
  unfolding chan_init_sem
  sem_chan_send_mpsc-full c ps p len =
      let (c1, sent, h) = filled [] ps (chan_init_sem c) started (omega arith) in
      let c2 : Chan x = record c1 { s_sem = 0; c_sem = c1.c_sem + 1 } in
      (
        c1,
        c2,
        sent,
        send_full c1 p 0 (omega (arith, h.to_send)) (
            l.enqueue_full Kind.mpsc c1.ring p
              (omega (arith, h.places_are, ap length h.entries_are))),
        drained ps c2 h.entries_are (omega (arith, h.to_receive)),
      )
    where
      started : Holds [] (chan_init_sem c)
      started = record {
        places_are = l.places-init capacity_of_chan;
        entries_are = l.entries-init capacity_of_chan;
        to_receive = refl;
        to_send = refl;
      }
