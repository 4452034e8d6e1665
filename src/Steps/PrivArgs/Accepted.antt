-- ===== src/Steps/PrivArgs/Accepted.antt =====
-- The helper reads back the numbers that internal/steps/privargs.go writes for it.
use rootmote_agent.Prelude.{
  ℕ, ◌^◌, ◌<◌, ◌≤◌, ◌≡◌, refl, ap, ◌∙◌, true, ◌&&◌, none, some, [], ◌∷◌, codes, ltb, if◌then◌else◌,
  arith,
}
use rootmote_agent.Prelude.Int.{pos}
use rootmote_agent.Steps.Catalog.{process_stop, firewall_allow, firewall_remove}
use rootmote_agent.Steps.Params.{Params, string_param, int_param}
use rootmote_agent.Steps.Validate.{
  number_of, parse_pid, parse_start_time, pid_of, start_of, valid_port, valid_proto,
}
use rootmote_agent.Steps.Helper.Actions.{port_of}
use rootmote_agent.Steps.PrivArgs.{
  decimal, format_int, uint_param, priv_args, process_args, firewall_args, when,
}
use rootmote_agent.Steps.PrivArgs.Decimal.{number_of-decimal}

parse_pid-decimal : (n : ℕ) → 1 < n → n < 2 ^ 31 → parse_pid (decimal n) ≡ some n
unfolding parse_pid
parse_pid-decimal n h g =
    let past : ltb 1 n ≡ true = ground (arith, h) in
    let fits : ltb n (2 ^ 31) ≡ true = ground (arith, g) in
    ap pid_of (number_of-decimal n (omega (arith, g)))
    ∙ ap (λ b. if b && ltb 1 n then some n else none) fits
    ∙ ap (λ b. if b then some n else none) past

parse_start_time-decimal : (n : ℕ) → 0 < n → n < 2 ^ 64 → parse_start_time (decimal n) ≡ some n
unfolding parse_start_time
parse_start_time-decimal n h g =
    let past : ltb 0 n ≡ true = ground (arith, h) in
    let fits : ltb n (2 ^ 64) ≡ true = ground (arith, g) in
    ap start_of (number_of-decimal n g)
    ∙ ap (λ b. if b && ltb 0 n then some n else none) fits
    ∙ ap (λ b. if b then some n else none) past

valid_port-le : (n : ℕ) → valid_port (pos n) ≡ true → n ≤ 65535
unfolding valid_port
valid_port-le n h = ground (arith, h)

priv_args_process :
    (p : Params)
    → priv_args process_stop p
      ≡ process_args (int_param p (codes "pid")) (uint_param p (codes "start_time"))
unfolding priv_args
priv_args_process p = refl

-- Process 1 is refused.
pub priv_args_first :
    (p : Params) (start : ℕ)
    → int_param p (codes "pid") ≡ some (pos 1)
    → uint_param p (codes "start_time") ≡ some start
    → priv_args process_stop p ≡ none
priv_args_first p start is_pid is_start =
    priv_args_process p
    ∙ ap (λ o. process_args o (uint_param p (codes "start_time"))) is_pid
    ∙ ap (λ o. process_args (some (pos 1)) o) is_start

format_int-pos : (n : ℕ) → format_int (pos n) ≡ decimal n
unfolding format_int
format_int-pos n = refl

-- A pid and a start time that are given in range are handed over as two decimal numbers, out of
-- which the helper reads the same pid and start time.
pub priv_args-parse_pid :
    (p : Params) (pid start : ℕ)
    → int_param p (codes "pid") ≡ some (pos pid)
    → uint_param p (codes "start_time") ≡ some start
    → 1 < pid
    → pid < 2 ^ 31
    → 0 < start
    → start < 2 ^ 64
    → (priv_args process_stop p ≡ some (decimal pid ∷ decimal start ∷ []))
      × (parse_pid (decimal pid) ≡ some pid)
      × (parse_start_time (decimal start) ≡ some start)
priv_args-parse_pid p pid start is_pid is_start past_init fits positive fits' = (
  handed_over,
  parse_pid-decimal pid past_init fits,
  parse_start_time-decimal start positive fits',
)
  where
    handed_over : priv_args process_stop p ≡ some (decimal pid ∷ decimal start ∷ [])
    handed_over =
        let past : ltb 1 pid ≡ true = ground (arith, past_init) in
        let started : ltb 0 start ≡ true = ground (arith, positive) in
        priv_args_process p
        ∙ ap (λ o. process_args o (uint_param p (codes "start_time"))) is_pid
        ∙ ap (λ o. process_args (some (pos pid)) o) is_start
        ∙ ap (λ b. when (b && ltb 0 start) (format_int (pos pid) ∷ decimal start ∷ [])) past
        ∙ ap (λ b. when b (format_int (pos pid) ∷ decimal start ∷ [])) started
        ∙ ap (λ s. some (s ∷ decimal start ∷ [])) (format_int-pos pid)

priv_args_firewall :
    (p : Params)
    → (priv_args firewall_allow p
        ≡ firewall_args (int_param p (codes "port")) (string_param p (codes "proto")))
      × (priv_args firewall_remove p ≡ priv_args firewall_allow p)
unfolding priv_args
priv_args_firewall p = (refl, refl)

-- A port and a protocol that are valid are handed over, to open the port and to close it, as a
-- decimal number, out of which the helper reads the same port, and the protocol.
pub priv_args-number_of :
    (p : Params) (port : ℕ)
    → int_param p (codes "port") ≡ some (pos port)
    → valid_port (pos port) ≡ true
    → valid_proto (string_param p (codes "proto")) ≡ true
    → (priv_args firewall_allow p ≡ some (decimal port ∷ string_param p (codes "proto") ∷ []))
      × (priv_args firewall_remove p ≡ some (decimal port ∷ string_param p (codes "proto") ∷ []))
      × (port_of (number_of (decimal port)) ≡ some port)
priv_args-number_of p port is_port valid proto =
    (handed_over, (priv_args_firewall p).1 ∙ handed_over, read_back)
  where
    handed_over :
        priv_args firewall_allow p ≡ some (decimal port ∷ string_param p (codes "proto") ∷ [])
    handed_over =
        (priv_args_firewall p).0
        ∙ ap (λ o. firewall_args o (string_param p (codes "proto"))) is_port
        ∙ ap
            (λ b.
              when (b && valid_proto (string_param p (codes "proto")))
                (format_int (pos port) ∷ string_param p (codes "proto") ∷ []))
            valid
        ∙ ap (λ b. when b (format_int (pos port) ∷ string_param p (codes "proto") ∷ [])) proto
        ∙ ap (λ s. some (s ∷ string_param p (codes "proto") ∷ [])) (format_int-pos port)

    low : port ≤ 65535
    low = valid_port-le port valid

    read_back : port_of (number_of (decimal port)) ≡ some port
    read_back =
        let small : ltb port (2 ^ 31) ≡ true = ground (arith, low) in
        ap port_of (number_of-decimal port (omega (arith, low)))
        ∙ ap (λ b. if b then some port else none) small
