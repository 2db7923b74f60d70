-- ===== src/Scope/Address/Denied.antt =====
-- internal/scope/scope.go: the denied IPv4 addresses as CIDR blocks, and the IPv6 addresses that carry
-- an IPv4 address.
use mathlib.Core.Path.{subst}
use hermes_security_skills.Base.{
  [], arith, refl, some, sym, true, ℕ, ◌*◌, ◌+◌, ◌-◌, ◌/◌, ◌<◌, ◌^◌, ◌↔◌, ◌∷◌, ◌≡◌, ◌⊎◌,
}
use hermes_security_skills.Base.Text.Laws.{==_iff}
use hermes_security_skills.Scope.Address.{
  Ip, embedded_ipv4, ipv4, is_denied_ip, is_denied_ipv4, is_metadata_ipv4, to4, transition_ipv4,
}

-- The number that four bytes stand for.
abbrev pub ipv4_value : ℕ → ℕ → ℕ → ℕ → ℕ
ipv4_value a b c d = a * 2 ^ 24 + b * 2 ^ 16 + c * 2 ^ 8 + d

-- The address lies in the block of a base address and a prefix length.
abbrev pub InBlock : ℕ → ℕ → ℕ → Type 0
InBlock base len v = v / 2 ^ (32 - len) ≡ base / 2 ^ (32 - len)

-- 0.0.0.0/8, 10.0.0.0/8, 127.0.0.0/8, 169.254.0.0/16, 172.16.0.0/12, 192.168.0.0/16, 100.64.0.0/10
abbrev pub IsDeniedValue : ℕ → Type 0
IsDeniedValue v =
    InBlock (ipv4_value 0 0 0 0) 8 v
    ⊎ (InBlock (ipv4_value 10 0 0 0) 8 v
        ⊎ (InBlock (ipv4_value 127 0 0 0) 8 v
            ⊎ (InBlock (ipv4_value 169 254 0 0) 16 v
                ⊎ (InBlock (ipv4_value 172 16 0 0) 12 v
                    ⊎ (InBlock (ipv4_value 192 168 0 0) 16 v
                        ⊎ InBlock (ipv4_value 100 64 0 0) 10 v)))))

-- Four bytes are denied exactly when the number that they stand for lies in one of the seven blocks.
pub is_denied_ipv4_iff :
    (a b c d : ℕ)
    → a < 256
    → b < 256
    → c < 256
    → d < 256
    → (is_denied_ipv4 (a ∷ b ∷ c ∷ d ∷ []) ≡ true) ↔ IsDeniedValue (ipv4_value a b c d)
unfolding is_denied_ipv4
is_denied_ipv4_iff a b c d ha hb hc hd = ground arith

-- The three 16-byte addresses that carry an IPv4 address: mapped, NAT64, and 6to4 with any tail.
abbrev pub nat64 : ℕ → ℕ → ℕ → ℕ → Ip
nat64 a b c d = 0x00 ∷ 0x64 ∷ 0xff ∷ 0x9b ∷ 0 ∷ 0 ∷ 0 ∷ 0 ∷ 0 ∷ 0 ∷ 0 ∷ 0 ∷ a ∷ b ∷ c ∷ d ∷ []

abbrev pub six_to_four : ℕ → ℕ → ℕ → ℕ → (s t u v w x y z p q : ℕ) → Ip
six_to_four a b c d s t u v w x y z p q =
    0x20 ∷ 0x02 ∷ a ∷ b ∷ c ∷ d ∷ s ∷ t ∷ u ∷ v ∷ w ∷ x ∷ y ∷ z ∷ p ∷ q ∷ []

-- A carrier of an IPv4 address is denied exactly as that address is, whichever carrier it is.
pub is_denied_ip-carriers :
    (a b c d : ℕ) (s t u v w x y z p q : ℕ)
    → (is_denied_ip (some (ipv4 a b c d)) ≡ is_denied_ipv4 (a ∷ b ∷ c ∷ d ∷ []))
      × (is_denied_ip (some (a ∷ b ∷ c ∷ d ∷ [])) ≡ is_denied_ipv4 (a ∷ b ∷ c ∷ d ∷ []))
      × (is_denied_ip (some (nat64 a b c d)) ≡ is_denied_ipv4 (a ∷ b ∷ c ∷ d ∷ []))
      × (is_denied_ip (some (six_to_four a b c d s t u v w x y z p q))
          ≡ is_denied_ipv4 (a ∷ b ∷ c ∷ d ∷ []))
unfolding is_denied_ip transition_ipv4 to4 embedded_ipv4
is_denied_ip-carriers a b c d s t u v w x y z p q = (refl, refl, refl, refl)

metadata_ipv4_denied : (t : Ip) → is_metadata_ipv4 t ≡ true → is_denied_ipv4 t ≡ true
unfolding is_denied_ipv4
metadata_ipv4_denied t h =
    let e : 169 ∷ 254 ∷ 169 ∷ 254 ∷ [] ≡ t = sym ((==_iff t (169 ∷ 254 ∷ 169 ∷ 254 ∷ [])).0 h) in
    subst (λ x. is_denied_ipv4 x ≡ true) e refl
