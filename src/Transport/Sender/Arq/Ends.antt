-- ===== src/Transport/Sender/Arq/Ends.antt =====
-- How many tries the packets of the queue get.
use uwb_core.Common.{
  ℕ, zero, suc, ◌+◌, ◌≤◌, ◌≡◌, refl, sym, ap, ◌∙◌, Bool, false, List, [], ◌∷◌, map, some, length,
  if-both, arith,
}
use uwb_core.Transport.{Transport}
use uwb_core.Transport.Sender.{Air, dequeue_tx}
use uwb_core.Transport.Sender.Arq.{
  Packet, Reply, Arq, is_heard, seq_of_try, missed, try_first, try_all,
}
use uwb_core.Transport.Sender.Arq.Refine.{
  attempt, encode, Regs, instance_of, signal, AllFit, unfinished, finished, left,
  dequeue_tx-try_all,
}

-- the tries that the packets may take: for each its retries and one more
abbrev pub budget : List Packet → ℕ
budget [] = 0
budget (p ∷ ps) = suc p.retries + budget ps

module _ {S : Type 0} (f : S → S) where
  budget-missed :
      (k n : ℕ) (app : S) (p : Packet) (ps : List Packet)
      → budget (missed k app p ps n).packets ≡ k + budget ps
  budget-missed zero n app p ps = omega arith
  budget-missed (suc k) n app p ps = omega arith

  budget-try_first :
      (r : Reply) (p : Packet) (ps : List Packet) (seq : ℕ) (held : Bool) (app : S)
      → budget
          (try_first f r (record { packets = p ∷ ps; seq = seq; held = held; app = app })).packets
        ≤ p.retries + budget ps
  unfolding try_first
  budget-try_first r p ps seq held app =
      if-both (λ (x : Arq S). budget x.packets ≤ p.retries + budget ps)
        (is_heard r (seq_of_try held seq)) _ _ (omega arith)
        (omega (arith, budget-missed p.retries (seq_of_try held seq) app p ps))

  try_all_ends :
      (rs : List Reply) (ps : List Packet) (seq : ℕ) (held : Bool) (app : S)
      → budget ps ≤ length rs
      → (a : Arq S) × (try_all f rs (record { packets = ps; seq = seq; held = held; app = app })
          ≡ some a)
        × (a.packets ≡ [])
  unfolding try_all
  try_all_ends [] [] seq held app le = (_, refl, refl)
  try_all_ends [] (p ∷ ps) seq held app le = absurd (omega arith)
  try_all_ends (r ∷ rs) [] seq held app le = (_, refl, refl)
  try_all_ends (r ∷ rs) (p ∷ ps) seq held app le =
      let a = try_first f r (record { packets = p ∷ ps; seq = seq; held = held; app = app }) in
      try_all_ends rs a.packets a.seq a.held a.app
        (omega (arith, budget-try_first r p ps seq held app))

some_of : {A : Type 0} {x y : A} → some x ≡ some y → x ≡ y
some_of h = cc h

emptied : {S : Type 0} (a a' : Arq S) → a ≡ a' → a.packets ≡ [] → map encode a'.packets ≡ []
emptied a a' same empty = ap (λ x. map encode x.packets) (sym same) ∙ ap (map encode) empty

module _ {S : Type 0} (b : Transport S) where
  -- The loop ends, whatever comes back: with as many attempts as the packets have retries, and one more
  -- for each packet, the call returns, the queue is empty and the semaphores are free.
  pub dequeue_tx-ends :
      (air : Air) (dx_time systime : ℕ) (rs : List Reply) (ps : List Packet) (seq : ℕ) (app : S)
      (g : Regs)
      → AllFit ps
      → budget ps ≤ length rs
      → let a : Arq S = record { packets = ps; seq = seq; held = false; app = app } in
        (t : Transport S) × (left b
            (dequeue_tx air dx_time 0 (map (attempt systime) rs) (instance_of b a g))
          ≡ some t)
        × (t.tx_q ≡ [])
        × (t.sem ≡ 1)
        × (t.write_tx_lock ≡ 1)
        × (t.ack_sem ≡ 1)
  dequeue_tx-ends air dx_time systime rs ps seq app g fit le =
      let (a, ends, empty) = try_all_ends (signal b) rs ps seq false app le in
      elim (dequeue_tx-try_all b air dx_time systime rs ps seq app g fit) [
        | unfinished e f ↦ absurd (cc (sym e ∙ ends))
        | finished a' g' e f ↦
            (instance_of b a' g', f, emptied a a' (some_of (sym ends ∙ e)) empty, refl, refl, refl)
      ]
