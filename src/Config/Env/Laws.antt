-- ===== src/Config/Env/Laws.antt =====
-- What the environment can do to the configuration of src/config.rs.
-- The parts of a configuration that the environment does not reach.
use cyclone_dds_ws_bridge.Base.{
  Bool-cases, Bytes, Option, Option-cases, [], arith, err, inl, inr, leb, nat_beq, none, ok, refl,
  some, subst, sym, ℕ, ◌*◌, ◌+◌, ◌-◌, ◌^◌, ◌∷◌, ◌≡◌, ◌≤◌, ◌⊎◌,
}
use cyclone_dds_ws_bridge.Base.Text.{codes}
use cyclone_dds_ws_bridge.Bridge.Handler.Replies.{parsed}
use cyclone_dds_ws_bridge.Config.{Config}
use cyclone_dds_ws_bridge.Config.Env.{
  ConfigError, Env, apply_env_overrides, digit, domain_var, from_digits, invalid_env_var,
  overridden, parse_unsigned, port_var, with_addr, with_domain, with_port, with_uri,
}

abbrev SameLimits : Config → Config → Type 0
SameLimits c c' =
    (c'.websocket.max_connections ≡ c.websocket.max_connections)
    × (c'.websocket.idle_timeout_secs ≡ c.websocket.idle_timeout_secs)
    × (c'.bridge ≡ c.bridge)
    × (c'.logging ≡ c.logging)

abbrev or_else {ℓ} : {A : Type ℓ} → Option A → A → A
or_else none a = a
or_else (some x) a = x

from_digits_le :
    (largest : ℕ) (cs : Bytes) (n m : ℕ)
    → n ≤ largest
    → from_digits largest cs n ≡ some m
    → m ≤ largest
unfolding from_digits
from_digits_le largest [] n m h e = ground (arith, e)
from_digits_le largest (c ∷ cs) n m h e = elim (Option-cases (digit c)) [
  | inl other ↦ absurd (ground (arith, other, e))
  | inr (k, is) ↦ elim (Bool-cases (leb (10 * n + k) largest)) [
    | inl fits ↦
        from_digits_le largest cs (10 * n + k) m (ground (arith, fits))
          (ground (arith, is, fits, e))
    | inr over ↦ absurd (ground (arith, is, over, e))
  ]
]

parse_unsigned_le :
    (largest : ℕ) (cs : Bytes) (m : ℕ) → parse_unsigned largest cs ≡ some m → m ≤ largest
unfolding parse_unsigned
parse_unsigned_le largest [] m e = absurd (ground (arith, e))
parse_unsigned_le largest (c ∷ []) m e = from_digits_le largest (c ∷ []) 0 m (omega arith) e
parse_unsigned_le largest (c ∷ d ∷ cs) m e = elim (Bool-cases (nat_beq c 43)) [
  | inl sign ↦ from_digits_le largest (d ∷ cs) 0 m (omega arith) (ground (arith, sign, e))
  | inr first ↦ from_digits_le largest (c ∷ d ∷ cs) 0 m (omega arith) (ground (arith, first, e))
]

-- A number that is kept, or was parsed from the variable.
abbrev IsFrom : ℕ → Option Bytes → ℕ → ℕ → Type 0
IsFrom largest none before after = after ≡ before
IsFrom largest (some val) before after =
    (parse_unsigned largest val ≡ some after) × (after ≤ largest)

-- The variable is set to no number of its type.
abbrev pub IsInvalid : ℕ → Bytes → Option Bytes → ConfigError → Type 0
IsInvalid largest name none e = ⊥
IsInvalid largest name (some val) e =
    (parse_unsigned largest val ≡ none) × (e ≡ invalid_env_var name val)

overridden_lem :
    (largest : ℕ) (name : Bytes) (var : Option Bytes) (before : ℕ)
    → ((n : ℕ) × (overridden largest name var before ≡ ok n) × IsFrom largest var before n)
      ⊎ ((e : ConfigError) × (overridden largest name var before ≡ err e)
          × IsInvalid largest name var e)
overridden_lem largest name none before = inl (before, refl, refl)
overridden_lem largest name (some val) before = elim (Option-cases (parse_unsigned largest val)) [
  | inl refused ↦ inr (invalid_env_var name val, rw refused refl, (refused, refl))
  | inr (n, parsed) ↦ inl (n, rw parsed refl, (parsed, parse_unsigned_le largest val n parsed))
]

-- The configuration with what the variables say.
abbrev pub IsOverridden : Env → Config → Config → Type 0
IsOverridden env c c' =
    SameLimits c c'
    × (c'.websocket.addr ≡ or_else (env (codes "DDS_BRIDGE_WS_ADDR")) c.websocket.addr)
    × IsFrom (2 ^ 16 - 1) (env port_var) c.websocket.port c'.websocket.port
    × IsFrom (2 ^ 32 - 1) (env domain_var) c.dds.domain_id c'.dds.domain_id

-- The end of `apply_env_overrides`.
abbrev overrides : Option Bytes → Option Bytes → ℕ → ℕ → Config → Config
overrides addr uri port domain c =
    let c1 = with_addr addr c in
    with_uri uri (record c1 {
      websocket = record c1.websocket { port = port };
      dds = record c1.dds { domain_id = domain };
    })

with_addr_kept :
    (addr : Option Bytes) (c : Config)
    → ((with_addr addr c).websocket.port ≡ c.websocket.port)
      × ((with_addr addr c).dds.domain_id ≡ c.dds.domain_id)
with_addr_kept none c = (refl, refl)
with_addr_kept (some x) c = (refl, refl)

with_uri_lem :
    (env : Env) (c : Config) (uri addr : Option Bytes) (port domain : ℕ)
    → (let c' = overrides addr uri port domain c in
        SameLimits c c'
        × (c'.websocket.addr ≡ or_else addr c.websocket.addr)
        × (c'.websocket.port ≡ port)
        × (c'.dds.domain_id ≡ domain))
with_uri_lem env c none none port domain = ((refl, refl, refl, refl), refl, refl, refl)
with_uri_lem env c none (some x) port domain = ((refl, refl, refl, refl), refl, refl, refl)
with_uri_lem env c (some u) none port domain = ((refl, refl, refl, refl), refl, refl, refl)
with_uri_lem env c (some u) (some x) port domain = ((refl, refl, refl, refl), refl, refl, refl)

-- `apply_env_overrides` either succeeds, with the address from its variable if set, port and
-- domain id as they were or as their variables say, the limits and the log level unchanged, or
-- fails because the variable of the port or of the domain id is set to no number of 16 or of 32
-- bits, and the error names that variable and its value.
pub apply_env_overrides_lem :
    (env : Env) (c : Config)
    → ((c' : Config) × (apply_env_overrides env c ≡ ok c') × IsOverridden env c c')
      ⊎ ((e : ConfigError) × (apply_env_overrides env c ≡ err e)
          × (IsInvalid (2 ^ 16 - 1) port_var (env port_var) e
              ⊎ IsInvalid (2 ^ 32 - 1) domain_var (env domain_var) e))
unfolding apply_env_overrides
apply_env_overrides_lem env c =
    let addr = env (codes "DDS_BRIDGE_WS_ADDR") in
    let uri = env (codes "CYCLONEDDS_URI") in
    elim (overridden_lem (2 ^ 16 - 1) port_var (env port_var) (with_addr addr c).websocket.port) [
      | inl (port, port_is, from_port) ↦
          elim (overridden_lem (2 ^ 32 - 1) domain_var (env domain_var)
            (with_addr addr c).dds.domain_id) [
              | inl (domain, domain_is, from_domain) ↦
                  let (limits, addr_is, port_kept, domain_kept) =
                    with_uri_lem env c uri addr port domain in
                  inl (
                    overrides addr uri port domain c,
                    rw (port_is, with_port, domain_is, with_domain) refl,
                    (
                      limits,
                      addr_is,
                      subst
                          (λ n.
                            IsFrom (2 ^ 16 - 1) (env port_var) n
                              (overrides addr uri port domain c).websocket.port)
                          (with_addr_kept addr c).0
                          (subst
                            (IsFrom (2 ^ 16 - 1) (env port_var) (with_addr addr c).websocket.port)
                            (sym port_kept) from_port),
                      subst
                          (λ n.
                            IsFrom (2 ^ 32 - 1) (env domain_var) n
                              (overrides addr uri port domain c).dds.domain_id)
                          (with_addr_kept addr c).1
                          (subst
                            (IsFrom (2 ^ 32 - 1) (env domain_var) (with_addr addr c).dds.domain_id)
                            (sym domain_kept) from_domain),
                    ),
                  )
              | inr (e, refused, why) ↦ inr (e, rw (port_is, with_port, refused) refl, inr why)
            ]
      | inr (e, refused, why) ↦ inr (e, rw refused refl, inl why)
    ]
