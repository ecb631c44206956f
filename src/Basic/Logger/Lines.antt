-- ===== src/Basic/Logger/Lines.antt =====
-- src/basic/Logger.cpp: the lines of threads that print at the same time.
use npp.Common.{
  ℕ, ◌≡◌, refl, sym, ap, ◌∙◌, Option, none, some, List, [], ◌∷◌, ◌++◌, append-nil, append_assoc,
  arith,
}
use npp.Basic.Logger.{
  Logger, Message, print_texts, text_of, join, Stream, start, lock, write, Step, locks, writes,
  Reach, here, next,
}

-- What the holder of the lock still has to write.
abbrev pub unwritten : Option (List (List ℕ)) → List ℕ
unwritten none = []
unwritten (some texts) = join texts

join-append : (a b : List (List ℕ)) → join (a ++ b) ≡ join a ++ join b
join-append [] b = refl
join-append (t ∷ a) b = ap (◌++◌ t) (join-append a b) ∙ sym (append_assoc t (join a) (join b))

abbrev pub IsWhole : Stream → Type 0
IsWhole s = s.output ++ unwritten s.holder ≡ join s.begun

one_more :
    (output line : List ℕ) (begun : List (List ℕ))
    → output ++ [] ≡ join begun
    → output ++ line ≡ join (begun ++ line ∷ [])
one_more output line begun h =
    ap (λ (l : List ℕ). l ++ line) (sym (append-nil output) ∙ h)
    ∙ (ap (◌++◌ (join begun)) (sym (append-nil line)) ∙ sym (join-append begun (line ∷ [])))

lock-IsWhole :
    (s : Stream) (h : Option (List (List ℕ))) (l : Logger) (now : List ℕ) (m : Message)
    → s.holder ≡ h
    → IsWhole s
    → IsWhole (lock s l now m)
unfolding lock
lock-IsWhole s none l now m e w =
    let texts = print_texts l now (text_of m) in
    ground (arith, one_more s.output (join texts) s.begun)
lock-IsWhole s (some texts) l now m e w = ground arith

write-IsWhole :
    (s : Stream) (h : Option (List (List ℕ))) → s.holder ≡ h → IsWhole s → IsWhole (write s)
unfolding write
write-IsWhole s none e w = ground arith
write-IsWhole s (some []) e w = ground arith
write-IsWhole s (some (t ∷ ts)) e w = ground (arith, append_assoc s.output t (join ts))

Step-IsWhole : {s t : Stream} → Step s t → IsWhole s → IsWhole t
Step-IsWhole {s} (locks l now m e) w = rw e (lock-IsWhole s s.holder l now m refl w)
Step-IsWhole {s} (writes e) w = rw e (write-IsWhole s s.holder refl w)

-- Whatever threads print with whatever loggers, the stream holds the lines whose printing has begun, one
-- after the other, but for what the holder of the lock still has to write: lines do not mix.
pub Reach-IsWhole : {s : Stream} → Reach start s → IsWhole s
unfolding start
Reach-IsWhole here = refl
Reach-IsWhole (next r st) = Step-IsWhole st (Reach-IsWhole r)
