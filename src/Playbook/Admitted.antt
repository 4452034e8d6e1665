-- ===== src/Playbook/Admitted.antt =====
-- What passes the check of internal/playbook/validate.go reaches the helper as it was shown.
use rootmote_agent.Prelude.{
  ℕ, ◌-◌, ◌^◌, ◌<◌, ◌≤◌, ◌≡◌, ◌⊎◌, inl, inr, refl, sym, ap, ◌∙◌, Bool, true, false, ◌&&◌, ◌||◌, not,
  Option, none, some, List, [], ◌∷◌, Text, codes, text_beq, text_beq_iff, text_eq, exists, arith,
  All, length, leb, if◌then◌else◌, Bool-cases, eqb, ltb,
}
use mathlib.Core.Path.{subst}
use rootmote_agent.Prelude.Maps.{lookup}
use rootmote_agent.Prelude.Int.{ℤ, pos, negsuc}
use rootmote_agent.Steps.Params.{Params, Value, uint64, text, int_of, int_param, string_param}
use rootmote_agent.Steps.Catalog.{StepId, is_listed, process_stop, firewall_allow, firewall_remove}
use rootmote_agent.Steps.Validate.{parse_pid, parse_start_time, number_of, valid_port, valid_proto}
use rootmote_agent.Steps.PrivArgs.{priv_args, decimal, uint_of, natural, uint_param}
use rootmote_agent.Steps.PrivArgs.Accepted.{
  priv_args_first, priv_args-parse_pid, priv_args-number_of,
}
use rootmote_agent.Steps.Helper.Actions.{port_of}
use rootmote_agent.Playbook.{
  Inventory, PlaybookStep, in_range, is_text, check_given, check_param, all_params, check_step,
  check_steps, is_some_step, max_steps, all_known, check_source, validates,
}
use rootmote_agent.Playbook.Catalog.{
  Param, Source, anywhere, ports, integer_max, port_param, proto_param, number_param, params_of,
}

-- A number of the range that is the value of a parameter, signed and unsigned.
abbrev IsNumber : Option Value → ℕ → Type 0
IsNumber o most =
    (n : ℕ) × (int_of o ≡ some (pos n)) × (uint_of o (int_of o) ≡ some n) × (0 < n) × (n ≤ most)

in_range-pos :
    (most : ℕ) (o : Option ℤ)
    → in_range most o ≡ true
    → (n : ℕ) × (o ≡ some (pos n)) × (0 < n) × (n ≤ most)
in_range-pos most none h = absurd (ground (arith, h))
in_range-pos most (some (pos n)) h = (n, refl, ground (arith, h), ground (arith, h))
in_range-pos most (some (negsuc n)) h = absurd (ground (arith, h))

uint_value :
    (k n : ℕ)
    → int_of (some (uint64 k)) ≡ some (pos n)
    → uint_of (some (uint64 k)) (int_of (some (uint64 k))) ≡ some n
uint_value k n h = by_test (ltb k (2 ^ 63)) h
  where
    by_test : (t : Bool) → (if t then some (pos k) else none) ≡ some (pos n) → some k ≡ some n
    by_test true g = ground (arith, g)
    by_test false g = absurd (ground (arith, g))

in_range-IsNumber :
    (most : ℕ) (raw : Value)
    → (not (is_text raw) && in_range most (int_of (some raw))) ≡ true
    → IsNumber (some raw) most
in_range-IsNumber most (text s) h = absurd (ground (arith, h))
in_range-IsNumber most (uint64 k) h =
    let (n, same, lo, hi) = in_range-pos most (int_of (some (uint64 k))) h in
    (n, same, uint_value k n same, lo, hi)
in_range-IsNumber most raw h =
    let (n, same, lo, hi) = in_range-pos most (int_of (some raw)) h in
    (n, same, ap natural same, lo, hi)

abbrev integer_named : Text → Source → Param
integer_named name source = record (number_param name) { source = source }

known_int :
    (p : Params) (name : Text) (n : ℕ)
    → int_of (lookup name p) ≡ some (pos n)
    → int_param p name ≡ some (pos n)
unfolding int_param
known_int p name n h = h

known_uint :
    (p : Params) (name : Text) (n : ℕ)
    → uint_of (lookup name p) (int_of (lookup name p)) ≡ some n
    → uint_param p name ≡ some n
unfolding int_param uint_param
known_uint p name n h = h

known_text : (p : Params) (name s : Text) → lookup name p ≡ some (text s) → string_param p name ≡ s
unfolding string_param
known_text p name s h = rw h refl

is_valid_port : (n : ℕ) → 0 < n → n ≤ 65535 → valid_port (pos n) ≡ true
unfolding valid_port
is_valid_port n lo hi = ground (arith, lo, hi)

max_pid : (n : ℕ) → n ≤ integer_max (codes "pid") → n ≤ 2 ^ 22
unfolding integer_max
max_pid n h = h

max_start : (n : ℕ) → n ≤ integer_max (codes "start_time") → n ≤ 2 ^ 63 - 1
unfolding integer_max
max_start n h = h

max_port : (n : ℕ) → n ≤ integer_max (codes "port") → n ≤ 65535
unfolding integer_max
max_port n h = h

-- A number that the check admits for a parameter.
check_given-IsNumber :
    (name : Text) (source : Source) (p : Params) (o : Option Value)
    → lookup name p ≡ o
    → check_given (integer_named name source) p o ≡ true
    → IsNumber o (integer_max name)
unfolding check_param int_param
check_given-IsNumber name source p none e h = absurd (ground (arith, h))
check_given-IsNumber name source p (some raw) e h =
    in_range-IsNumber (integer_max name) raw
      (subst (λ o. (not (is_text raw) && in_range (integer_max name) (int_of o)) ≡ true) e h)

-- A protocol that the check admits.
check_given-proto :
    (p : Params) (o : Option Value)
    → check_given proto_param p o ≡ true
    → (s : Text) × (o ≡ some (text s)) × (valid_proto s ≡ true)
unfolding check_param valid_proto
check_given-proto p none h = absurd (ground (arith, h))
check_given-proto p (some (text s)) h = (
  s,
  refl,
  one_of (Bool-cases (text_beq (codes "tcp") s)) (Bool-cases (text_beq (codes "udp") s)),
)
  where
    one_of :
        (text_beq (codes "tcp") s ≡ true) ⊎ (text_beq (codes "tcp") s ≡ false)
        → (text_beq (codes "udp") s ≡ true) ⊎ (text_beq (codes "udp") s ≡ false)
        → (text_beq s (codes "tcp") || text_beq s (codes "udp")) ≡ true
    one_of (inl e) _ =
        subst (λ t. (text_beq t (codes "tcp") || text_beq t (codes "udp")) ≡ true)
          ((text_beq_iff (codes "tcp") s).0 e) refl
    one_of (inr n) (inl e) =
        subst (λ t. (text_beq t (codes "tcp") || text_beq t (codes "udp")) ≡ true)
          ((text_beq_iff (codes "udp") s).0 e) refl
    one_of (inr n) (inr m) = absurd (ground (arith, n, m, h))
check_given-proto p (some _) h = absurd (ground (arith, h))

-- What the helper is handed for a step: the very numbers that the parameters show, or nothing for
-- process 1.
abbrev pub HandsPort : StepId → Params → ℕ → Type 0
HandsPort id p port =
    (int_param p (codes "port") ≡ some (pos port))
    × (priv_args id p ≡ some (decimal port ∷ string_param p (codes "proto") ∷ []))
    × (port_of (number_of (decimal port)) ≡ some port)

abbrev pub HandsOver : StepId → Params → Type 0
HandsOver process_stop p =
    (pid : ℕ) × (start : ℕ) × (int_param p (codes "pid") ≡ some (pos pid))
    × (uint_param p (codes "start_time") ≡ some start)
    × (((pid ≡ 1) × (priv_args process_stop p ≡ none))
        ⊎ ((priv_args process_stop p ≡ some (decimal pid ∷ decimal start ∷ []))
            × (parse_pid (decimal pid) ≡ some pid)
            × (parse_start_time (decimal start) ≡ some start)))
HandsOver firewall_allow p = (port : ℕ) × HandsPort firewall_allow p port
HandsOver firewall_remove p = (port : ℕ) × HandsPort firewall_remove p port
HandsOver _ p = Unit

stop-HandsOver :
    (p : Params)
    → check_given (number_param (codes "pid")) p (lookup (codes "pid") p) ≡ true
    → check_given (number_param (codes "start_time")) p (lookup (codes "start_time") p) ≡ true
    → HandsOver process_stop p
stop-HandsOver p h g =
    let (pid, is_pid, _, lo, hi) = check_given-IsNumber (codes "pid") anywhere p _ refl h in
    let (start, _, is_start, lo', hi') =
      check_given-IsNumber (codes "start_time") anywhere p _ refl g in
    let low_pid : pid < 2 ^ 31 = omega (arith, max_pid pid hi) in
    let low_start : start < 2 ^ 64 = omega (arith, max_start start hi') in
    (
      pid,
      start,
      known_int p _ pid is_pid,
      known_uint p _ start is_start,
      elim (Bool-cases (eqb pid 1)) [
        | inl e ↦
            (let one : pid ≡ 1 = ground (arith, e) in
              inl (
                one,
                priv_args_first p start (known_int p _ pid is_pid ∙ ap (λ n. some (pos n)) one)
                    (known_uint p _ start is_start),
              ))
        | inr n ↦ inr (
            priv_args-parse_pid p pid start (known_int p _ pid is_pid)
              (known_uint p _ start is_start) (ground (arith, n, lo)) low_pid lo' low_start)
      ],
    )

firewall-HandsPort :
    (p : Params)
    → check_given port_param p (lookup (codes "port") p) ≡ true
    → check_given proto_param p (lookup (codes "proto") p) ≡ true
    → (port : ℕ) × HandsPort firewall_allow p port × HandsPort firewall_remove p port
firewall-HandsPort p h g =
    let (port, is_port, _, lo, hi) = check_given-IsNumber (codes "port") ports p _ refl h in
    let (s, found, valid) = check_given-proto p _ g in
    let (opens, closes, back) =
      priv_args-number_of p port (known_int p _ port is_port)
        (is_valid_port port lo (max_port port hi))
        (subst (λ t. valid_proto t ≡ true) (sym (known_text p _ s found)) valid) in
    (port, (known_int p _ port is_port, opens, back), (known_int p _ port is_port, closes, back))

third : (a b c d : Bool) → (a && (b && (c && d))) ≡ true → c ≡ true
third a b c d h = ground (arith)

-- Every parameter of the catalog passes.
each_given :
    (v : Option (StepId → Params → Bool)) (inv : Inventory) (id : StepId) (p : Params)
    → check_step v inv (record { step = id; params = p }) ≡ true
    → all_params (λ q. check_given q p (lookup q.name p)) (params_of id) ≡ true
unfolding check_step
each_given v inv id p h =
    third (is_listed id) (all_known (params_of id) p) _ (check_source id p inv && validates v id p)
      h

two_of :
    (p : Params) (q r : Param)
    → all_params (λ q. check_given q p (lookup q.name p)) (q ∷ r ∷ []) ≡ true
    → (check_given q p (lookup q.name p) ≡ true) × (check_given r p (lookup r.name p) ≡ true)
two_of p q r h = both (check_given q p (lookup q.name p)) (check_given r p (lookup r.name p)) h
  where
    both : (a b : Bool) → not (not a || (not b || false)) ≡ true → (a ≡ true) × (b ≡ true)
    both a b g = ground (arith)

-- For one step.
check_step-HandsOver :
    (v : Option (StepId → Params → Bool)) (inv : Inventory) (id : StepId) (p : Params)
    → check_step v inv (record { step = id; params = p }) ≡ true
    → HandsOver id p
unfolding params_of
check_step-HandsOver v inv process_stop p h =
    let (given, given') =
      two_of p (number_param (codes "pid")) (number_param (codes "start_time"))
        (each_given v inv process_stop p h) in
    stop-HandsOver p given given'
check_step-HandsOver v inv firewall_allow p h =
    let (given, given') = two_of p port_param proto_param (each_given v inv firewall_allow p h) in
    let (port, opens, closes) = firewall-HandsPort p given given' in (port, opens)
check_step-HandsOver v inv firewall_remove p h =
    let (given, given') = two_of p port_param proto_param (each_given v inv firewall_remove p h) in
    let (port, opens, closes) = firewall-HandsPort p given given' in (port, closes)
check_step-HandsOver v inv _ p h = tt

each_checked :
    (v : Option (StepId → Params → Bool)) (inv : Inventory) (steps : List PlaybookStep)
    → not (exists (λ s. not (check_step v inv s)) steps) ≡ true
    → All (λ s. HandsOver s.step s.params) steps
each_checked v inv [] h = tt
each_checked v inv (s ∷ steps) h =
    let (first, others) =
      both (check_step v inv s) (exists (λ t. not (check_step v inv t)) steps) h in
    (check_step-HandsOver v inv s.step s.params first, each_checked v inv steps others)
  where
    both : (a b : Bool) → not (not a || b) ≡ true → (a ≡ true) × (not b ≡ true)
    both a b g = ground (arith)

-- A playbook that passes the check has at most six steps, and each of them that stops a process or
-- changes the firewall reaches the helper with the numbers that its parameters show: the helper
-- reads the same pid and start time, or the same port, out of what it is handed. The one exception
-- is process 1, which the check lets pass and which is not handed over.
pub check_steps-HandsOver :
    (v : Option (StepId → Params → Bool)) (inv : Inventory) (has_manual : Bool)
    (steps : List PlaybookStep)
    → check_steps v inv has_manual steps ≡ true
    → (length steps ≤ max_steps) × All (λ s. HandsOver s.step s.params) steps
unfolding check_steps
check_steps-HandsOver v inv has_manual steps h =
    let (few, checked) =
      outer (leb (length steps) max_steps) (is_some_step steps || has_manual) _ h in
    (ground (arith, few), each_checked v inv steps checked)
  where
    outer : (a b c : Bool) → (a && b && c) ≡ true → (a ≡ true) × (c ≡ true)
    outer a b c g = ground (arith)
