-- ===== src/Network/Receive/Safety.antt =====
-- src/network/NetworkManager.cpp: `readNormalMessage` on a connection that may end, fail or cut short.
use npp.Common.{
  ◌-◌, ◌%◌, ℕ, zero, suc, ◌+◌, ◌^◌, ◌≤◌, ◌<◌, ◌≡◌, refl, sym, ap, ◌∙◌, subst, ◌⊎◌, inl, inr, Option,
  none, some, List, [], ◌++◌, min, length, replicate, arith, length-append, append-nil,
  append_assoc, Option-cases,
}
use npp.Common.Outcome.{ok, abort, Returns, Returns-mono, Returns-of_eq}
use npp.Basic.Bytes.{Cell}
use npp.Network.Head.{message_head}
use npp.Network.Connection.{Connection}
use npp.Network.Receive.{receive_loop, receive_buff_size, read_normal_message}
use npp.Network.Receive.Fill.{written, partial, pass}

module _ (k : Connection) where
  open k use {State, incoming, read}

  -- The connection ended, or the buffer holds just the bytes that it gave, as many as there should be.
  abbrev pub Filled : State → List ℕ → ℕ → Option Cell × State → Type 0
  Filled s done size p =
      (p.0 ≡ none)
      ⊎ ((came : List ℕ) × (p.0 ≡ some (written (done ++ came)))
          × (length (done ++ came) ≡ size)
          × (incoming s ≡ came ++ incoming p.1))

  loop_ends :
      (fuel : ℕ) (s s' : State) (size remain all_read : ℕ) (buffer : Cell)
      → read s (min receive_buff_size (suc remain)) ≡ (none, s')
      → receive_loop k (suc fuel) size s (suc remain) all_read buffer ≡ ok (none, s')
  unfolding receive_loop
  loop_ends fuel s s' size remain all_read buffer re = ground (arith, re)

  Filled-next :
      (s s' : State) (done bs : List ℕ) (size : ℕ) (p : Option Cell × State)
      → incoming s ≡ bs ++ incoming s'
      → Filled s' (done ++ bs) size p
      → Filled s done size p
  Filled-next s s' done bs size p e (inl n) = inl n
  Filled-next s s' done bs size p e (inr (came, c, l, q)) = inr (
    bs ++ came,
    c ∙ ap (λ (l : List ℕ). some (written l)) (append_assoc done bs came),
    sym (ap length (append_assoc done bs came)) ∙ l,
    e ∙ (ap (◌++◌ bs) q ∙ sym (append_assoc bs came (incoming p.1))),
  )

  -- Whatever the connection does, the loop neither throws nor writes out of bounds.
  loop-Filled :
      (fuel : ℕ) (s : State) (done : List ℕ) (size remain all_read : ℕ)
      → size ≡ length done + remain
      → all_read ≡ length done
      → remain ≤ fuel
      → size < 2 ^ 32
      → Returns
          (Filled s done size)
          (receive_loop k fuel size s remain all_read (partial done remain))
  unfolding receive_loop
  loop-Filled fuel s done size zero all_read es ea f h = inr (
    [],
    ap some (append-nil (written done) ∙ ap written (sym (append-nil done))),
    omega (arith, ap length (append-nil done)),
    refl,
  )
  loop-Filled zero s done size (suc remain) all_read es ea f h = absurd (omega arith)
  loop-Filled (suc fuel) s done size (suc remain) all_read es ea f h =
      elim (Option-cases (read s n).0) [
        | inl nothing ↦
            Returns-of_eq (Filled s done size)
              (loop_ends fuel s (read s n).1 size remain all_read _ (count nothing)) (inl refl)
        | inr (bs, e) ↦
            let (some_came, fits, sp) = k.read_some s (read s n).1 n bs (count e) in
            let m = suc remain - length bs in
            subst (Returns (Filled s done size))
              (sym (
                pass k fuel s (read s n).1 done bs size remain all_read m (count e) es ea
                  (omega arith) h))
              (Returns-mono (Filled (read s n).1 (done ++ bs) size) (Filled s done size) _
                (λ p. Filled-next s (read s n).1 done bs size p sp)
                (loop-Filled fuel (read s n).1 (done ++ bs) size m (length (done ++ bs))
                  (omega (arith, length-append done bs)) refl (omega arith) h))
      ]
    where
      n : ℕ
      n = min receive_buff_size (suc remain)

      count : {o : Option (List ℕ)} → (read s n).0 ≡ o → read s n ≡ (o, (read s n).1)
      count e = ap (λ (o : Option (List ℕ)). (o, (read s n).1)) e

  -- Whatever the connection does, the loop for a message below 4 GiB returns, within as many passes as
  -- bytes, and neither throws nor writes out of bounds: the connection has ended, or the buffer holds
  -- exactly the next bytes that it gave, as many as the head says.
  pub receive-Filled :
      (s : State) (size : ℕ)
      → size < 2 ^ 32
      → Returns (Filled s [] size) (receive_loop k size size s size 0 (replicate size none))
  receive-Filled s size h = loop-Filled size s [] size size 0 (omega arith) refl (omega arith) h

  -- A message whose length is a multiple of 2 ^ 32, the empty one first of all, stops the receiving
  -- process by an assertion, at its head: whatever the connection then holds.
  pub read_normal_message_empty :
      (s : State) (content : List ℕ)
      → length content % 2 ^ 32 ≡ 0
      → read_normal_message k s (message_head content) ≡ abort
  unfolding read_normal_message message_head
  read_normal_message_empty s content e = rw e refl
