-- ===== src/Terminal/Printing.antt =====
-- `print` writes the characters of a text in order, and then one cell for its terminating zero.
use own_kernel.Prelude.{ap, ℕ, suc, ◌+◌, ◌<◌, ◌≡◌, List, [], ◌∷◌, ◌++◌, length, some, arith}
use own_kernel.Memory.{Mem}
use own_kernel.Strings.Text.{CString, strlen-length}
use own_kernel.Terminal.{Terminal, terminal_writechar, print_loop, print}

abbrev pub write_all : List ℕ → Terminal → Terminal
write_all [] t = t
write_all (c ∷ cs) t = write_all cs (terminal_writechar c 15 t)

print_loop-write_all :
    (m : Mem) (str index : ℕ) (s : List ℕ) (t : Terminal)
    → CString m (str + index) s
    → print_loop (length s + 1) index m str t ≡ write_all (s ++ 0 ∷ []) t
unfolding print_loop
print_loop-write_all m str index [] t h = rw h
print_loop-write_all m str index (c ∷ s) t h =
    let e : str + (index + 1) ≡ str + index + 1 = omega arith in
    let n : suc (length s) + 1 ≡ suc (length s + 1) = omega arith in
    rw (n, ← h.0)
      (print_loop-write_all m str (index + 1) s (terminal_writechar (m (str + index)) 15 t)
        (rw e h.2))

-- With fuel above the length of the text, `print` writes the text and its terminating zero.
pub print-write_all :
    (fuel : ℕ) (m : Mem) (str : ℕ) (s : List ℕ) (t : Terminal)
    → CString m str s
    → length s < fuel
    → print fuel m str t ≡ some (write_all (s ++ 0 ∷ []) t)
unfolding print
print-write_all fuel m str s t h enough =
    let e : str + 0 ≡ str = omega arith in
    rw (strlen-length fuel m str s h enough, print)
      (ap (λ (r : Terminal). some r) (print_loop-write_all m str 0 s t (rw e h)))
