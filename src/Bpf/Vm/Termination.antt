-- ===== src/Bpf/Vm/Termination.antt =====
-- Jumps that go forward, `BPF_JA`, and the end of a run of `BpfVm` in wnr-pcap/src/bpf.rs.
use we_nmap_in_rust.Prelude.{
  ℕ, zero, suc, ◌+◌, ◌^◌, ◌<◌, ◌≡◌, refl, sym, ◌∙◌, List, [], ◌∷◌, Option, none, some, Bool, true,
  not, ◌&&◌, ◌||◌, ltb, ◌==◌, length, get_elem?, All, All-get_elem?, if_both, if_cases, IfSome,
  arith, bit_and, Option-cases, inl, inr,
}
use mathlib.Core.Path.{subst}
use mathlib.Core.Bool.{and-eq-true_iff}
use mathlib.Core.Option.{some-injective}
use native.Mathlib.Nat.{add-suc, add_comm}
use we_nmap_in_rust.Bpf.Isa.{BpfInsn, bpf_jmp, bpf_ja}
use we_nmap_in_rust.Bpf.Vm.{
  BpfVm, new, exec_jmp, Step, goto, halt, next_or_zero, jump_or_zero, step, resume, fetch, run_from,
  run,
}

abbrev pub is_ja : BpfInsn → Bool
is_ja ins = (bit_and ins.code 0x07 == bpf_jmp) && (bit_and ins.code 0x70 == bpf_ja)

-- The widths of the fields `jt` and `jf`.
abbrev pub OffsetsFit : BpfInsn → Type 0
OffsetsFit ins = (ins.jt < 256) × (ins.jf < 256)

-- Every unconditional jump goes to a later instruction; `pc` is the number of the first.
abbrev forward_from : ℕ → List BpfInsn → Bool
forward_from pc [] = true
forward_from pc (ins ∷ rest) = (not (is_ja ins) || ltb pc ins.k) && forward_from (suc pc) rest

abbrev pub is_forward : List BpfInsn → Bool
is_forward program = forward_from 0 program

forward_from-get_elem? :
    (first i : ℕ) (program : List BpfInsn) {ins : BpfInsn}
    → forward_from first program ≡ true
    → get_elem? program i ≡ some ins
    → is_ja ins ≡ true
    → first + i < ins.k
forward_from-get_elem? first i [] f e j = absurd (ground arith)
forward_from-get_elem? first zero (x ∷ rest) f e j = ground arith
forward_from-get_elem? first (suc i) (x ∷ rest) f e j =
    omega (arith, forward_from-get_elem? (suc first) i rest ((and-eq-true_iff _ _).0 f).1 e j)

-- The next `pc`, where there is one, lies after `pc`.
abbrev Advances : ℕ → Step → Type 0
Advances pc (goto pc' vm) = pc < pc'
Advances pc (halt r vm) = Unit

next_or_zero-Advances :
    (pc : ℕ) (vm : BpfVm) (o : Option BpfVm) → Advances pc (next_or_zero pc vm o)
unfolding next_or_zero
next_or_zero-Advances pc vm none = tt
next_or_zero-Advances pc vm (some vm') = omega arith

jump_or_zero-Advances :
    (pc : ℕ) (vm : BpfVm) (o : Option ℕ) → IfSome (λ t. pc < t) o → Advances pc (jump_or_zero vm o)
unfolding jump_or_zero
jump_or_zero-Advances pc vm none h = tt
jump_or_zero-Advances pc vm (some t) h = h

module _ (ins : BpfInsn) (pc : ℕ) (vm : BpfVm) (fits : OffsetsFit ins)
    (small : pc + 256 < 2 ^ 32) where
  exec_jmp-forward :
      (bit_and ins.code 0x70 ≡ 0 → pc < ins.k) → IfSome (λ t. pc < t) (exec_jmp ins pc vm)
  unfolding exec_jmp
  exec_jmp-forward h = ground arith

  step-Advances :
      (pkt : List ℕ) → (is_ja ins ≡ true → pc < ins.k) → Advances pc (step pkt ins pc vm)
  unfolding step
  step-Advances pkt h =
      let cls = bit_and ins.code 0x07 in
      if_both (Advances pc) (cls == 0 || cls == 1) (next_or_zero-Advances pc vm _) (
        if_both (Advances pc) (cls == 2 || cls == 3) (next_or_zero-Advances pc vm _) (
          if_both (Advances pc) (cls == 4) (omega arith) (
            if_cases (Advances pc) (cls == 5)
              (λ e.
                jump_or_zero-Advances pc vm (exec_jmp ins pc vm)
                  (exec_jmp-forward λ z. h (ground arith)))
              (λ _.
                if_both (Advances pc) (cls == 6) tt
                  (if_both (Advances pc) (cls == 7) (omega arith) tt)))))

-- A value, and not the end of the fuel.
abbrev pub Returns {ℓ} : {A : Type ℓ} → Option A → Type ℓ
Returns {A = A} o = (r : A) × (o ≡ some r)

resume-Returns :
    (rest : ℕ → BpfVm → Option (ℕ × BpfVm)) (pc : ℕ) (s : Step)
    → ((pc' : ℕ) (vm : BpfVm) → pc < pc' → Returns (rest pc' vm))
    → Advances pc s
    → Returns (resume rest s)
resume-Returns rest pc (goto pc' vm) k h = k pc' vm h
resume-Returns rest pc (halt r vm) k h = ((r, vm), refl)

get_elem?-lt {ℓ} :
    {A : Type ℓ} (xs : List A) (i : ℕ) {a : A} → get_elem? xs i ≡ some a → i < length xs
get_elem?-lt [] i e = absurd (ground arith)
get_elem?-lt (x ∷ xs) zero e = omega arith
get_elem?-lt (x ∷ xs) (suc i) e = omega (arith, get_elem?-lt xs i e)

module _ (program : List BpfInsn) (pkt : List ℕ) (fits : All OffsetsFit program)
    (forward : is_forward program ≡ true) (size : length program + 256 < 2 ^ 32) where
  run_from-Returns :
      (fuel pc : ℕ) (vm : BpfVm)
      → length program < fuel + pc
      → 0 < fuel
      → Returns (run_from fuel program pkt pc vm)
  unfolding run_from
  run_from-Returns zero pc vm h pos = absurd (omega arith)
  run_from-Returns (suc fuel) pc vm h pos = elim (Option-cases (get_elem? program pc)) [
    | inl e ↦ rw (e, fetch) ((vm.acc, vm), refl)
    | inr (ins, e) ↦
        rw (e, fetch)
          (resume-Returns (run_from fuel program pkt) pc (step pkt ins pc vm)
            (λ pc' vm' lt.
              run_from-Returns fuel pc' vm' (omega arith)
                (omega (arith, get_elem?-lt program pc e)))
            (step-Advances ins pc vm (All-get_elem? OffsetsFit program pc fits e)
              (omega (arith, get_elem?-lt program pc e)) pkt
              λ ja. omega (arith, forward_from-get_elem? 0 pc program forward e ja)))
  ]

  -- A program of `n` instructions, short enough for `u32` offsets, in which every `BPF_JA` goes
  -- forward, returns on every packet within `n + 1` rounds.
  pub run-Returns :
      (fuel : ℕ) (vm : BpfVm) → length program < fuel → Returns (run fuel program pkt vm)
  unfolding run
  run-Returns fuel vm h = run_from-Returns fuel 0 new (omega arith) (omega arith)

-- More fuel does not change what a run returns.
module _ (program : List BpfInsn) (pkt : List ℕ) where
  resume-more :
      (rest more : ℕ → BpfVm → Option (ℕ × BpfVm)) (s : Step) {r : ℕ × BpfVm}
      → ((pc : ℕ) (vm : BpfVm) → rest pc vm ≡ some r → more pc vm ≡ some r)
      → resume rest s ≡ some r
      → resume more s ≡ some r
  resume-more rest more (goto pc vm) k e = k pc vm e
  resume-more rest more (halt r vm) k e = e

  run_from-more_fuel :
      (fuel extra pc : ℕ) (vm : BpfVm) {r : ℕ × BpfVm}
      → run_from fuel program pkt pc vm ≡ some r
      → run_from (extra + fuel) program pkt pc vm ≡ some r
  unfolding run_from
  run_from-more_fuel zero extra pc vm e = absurd (ground arith)
  run_from-more_fuel (suc fuel) extra pc vm {r} e =
      rw add-suc (elim (Option-cases (get_elem? program pc)) [
        | inl n ↦ rw (n, fetch) (rw (n, fetch) at e)
        | inr (ins, s) ↦
            rw (s, fetch)
              (resume-more (run_from fuel program pkt) (run_from (extra + fuel) program pkt)
                (step pkt ins pc vm) (λ pc' vm'. run_from-more_fuel fuel extra pc' vm')
                (rw (s, fetch) at e))
      ])

  -- What a run returns does not depend on the fuel: two runs that return agree.
  pub run-fuel_irrelevant :
      (f g : ℕ) (vm : BpfVm) {r s : ℕ × BpfVm}
      → run f program pkt vm ≡ some r
      → run g program pkt vm ≡ some s
      → r ≡ s
  unfolding run
  run-fuel_irrelevant f g vm p q =
      some-injective _ _
        (sym (run_from-more_fuel f g 0 new p) ∙ rw (add_comm g f) (run_from-more_fuel g f 0 new q))

-- `BPF_JA` takes `k` for the number of the next instruction, so one that names itself never ends.
module _ (program : List BpfInsn) (pkt : List ℕ) (ins : BpfInsn) (ja : is_ja ins ≡ true) where
  step-ja : (pc : ℕ) (vm : BpfVm) → step pkt ins pc vm ≡ goto ins.k vm
  unfolding step exec_jmp jump_or_zero
  step-ja pc vm = ground arith

  run_from-ja_self :
      (fuel : ℕ) (vm : BpfVm)
      → get_elem? program ins.k ≡ some ins
      → run_from fuel program pkt ins.k vm ≡ none
  unfolding run_from
  run_from-ja_self zero vm e = refl
  run_from-ja_self (suc fuel) vm e = rw (e, fetch, step-ja) (run_from-ja_self fuel vm e)

-- The offset of `BPF_JA` is not relative: a program that begins with `BPF_JA` of 0 never returns,
-- whatever follows it and whatever the packet is.
pub run-ja_zero :
    (ins : BpfInsn) (rest : List BpfInsn) (pkt : List ℕ) (vm : BpfVm)
    → is_ja ins ≡ true
    → ins.k ≡ 0
    → (fuel : ℕ) → run fuel (ins ∷ rest) pkt vm ≡ none
unfolding run
run-ja_zero ins rest pkt vm ja z fuel =
    subst (λ k. run_from fuel (ins ∷ rest) pkt k new ≡ none) z
      (run_from-ja_self (ins ∷ rest) pkt ins ja fuel new
        (subst (λ k. get_elem? (ins ∷ rest) k ≡ some ins) (sym z) refl))
