-- ===== src/Network/Send/Threads/Carried.antt =====
-- src/network/NetworkManager.cpp: what a socket carries of rank reports and messages.
use npp.Common.{
  Bool-cases, ltb→le, ℕ, suc, ◌≡◌, refl, sym, ap, ◌∙◌, Option, none, some, List, [], ◌∷◌, ◌++◌, ltb,
  take, take-all, append-nil, append_assoc, length, arith, inl, inr, ◌==◌, if◌then◌else◌,
}
use npp.Network.Head.{report_frame}
use npp.Network.Registry.{NetworkManager}
use npp.Network.Server.Sending.{Item, report, item_frame, frames}
use npp.Network.Send.{no_socket, wrote}
use npp.Network.Send.Threads.{Write, reported, attempted}

-- What a socket has carried, after `before`. A report stands for a new socket, which is closed again
-- where the report is not taken whole.
abbrev pub begun : List ℕ → Option ℕ → List ℕ
begun bytes none = []
begun bytes (some n) = if ltb n 12 then [] else take n bytes

abbrev pub carry : ℕ → List ℕ → List Write → List ℕ
carry fd before [] = before
carry fd before (reported r ∷ ws) =
    carry fd (if r.socket == fd then begun r.bytes r.taken else before) ws
carry fd before (attempted i no_socket ∷ ws) = carry fd before ws
carry fd before (attempted i (wrote x frame none) ∷ ws) = carry fd before ws
carry fd before (attempted i (wrote x frame (some size)) ∷ ws) =
    carry fd (if x == fd then before ++ take size frame else before) ws

-- What a new socket begins with.
abbrev pub greeting : NetworkManager → Option ℕ → List Item
greeting m none = []
greeting m (some n) = if ltb n 12 then [] else report m.my_rank m.listen_port ∷ []

-- How often a thread has written.
abbrev pub times : ℕ → List Write → ℕ
times i [] = 0
times i (reported r ∷ ws) = times i ws
times i (attempted j no_socket ∷ ws) = times i ws
times i (attempted j (wrote x frame none) ∷ ws) = times i ws
times i (attempted j (wrote x frame (some size)) ∷ ws) =
    if i == j then suc (times i ws) else times i ws

length-report_frame : (rank port : ℕ) → length (report_frame rank port) ≡ 12
unfolding report_frame
length-report_frame rank port = refl

pub greeting-frames :
    (m : NetworkManager) (bytes : List ℕ) (taken : Option ℕ)
    → bytes ≡ report_frame m.my_rank m.listen_port
    → begun bytes taken ≡ frames (greeting m taken)
greeting-frames m bytes none e = refl
greeting-frames m bytes (some n) e = elim (Bool-cases (ltb n 12)) [
  | inl short ↦ rw short refl
  | inr whole ↦
      rw (whole, e)
        (take-all n (report_frame m.my_rank m.listen_port)
            (omega (arith, ltb→le n 12 whole, length-report_frame m.my_rank m.listen_port))
          ∙ sym (append-nil (report_frame m.my_rank m.listen_port)))
]

pub frames-snoc : (is : List Item) (i : Item) → frames (is ++ i ∷ []) ≡ frames is ++ item_frame i
frames-snoc [] i = append-nil (item_frame i)
frames-snoc (x ∷ is) i =
    ap (λ (l : List ℕ). item_frame x ++ l) (frames-snoc is i)
    ∙ sym (append_assoc (item_frame x) (frames is) (item_frame i))
