-- ===== src/Module/Options.antt =====
-- What the validation of the options accepts.
use ts_queue.Errors.{ok}
use ts_queue.Manager.{ConnectionConfig, ModuleOptions}
use ts_queue.Module.{validate, validate_connections, validate_drivers}
use ts_queue.Prelude.{
  String, true, false, List, [], ◌∷◌, some, is_some, ◌≡◌, ◌↔◌, refl, arith, All, same, Bool-cases,
  inl, inr,
}
use ts_queue.Prelude.Maps.{lookup}

abbrev pub HasDriver : String × ConnectionConfig → Type 0
HasDriver entry = same (entry.1).driver "" ≡ false

-- The default is named and declared, and every connection has a driver.
pub record IsUsable (config : ModuleOptions) : Type 0 where
  pub named : same config.default "" ≡ false
  pub declared : is_some (lookup config.default config.connections) ≡ true
  pub drivers : All HasDriver config.connections

drivers_lem :
    (connections : List (String × ConnectionConfig))
    → (validate_drivers connections ≡ ok tt) ↔ All HasDriver connections
unfolding validate_drivers
drivers_lem [] = ((λ e. tt), λ a. refl)
drivers_lem (entry ∷ rest) = elim (Bool-cases (same (entry.1).driver "")) [
  | inl e ↦ ((λ h. absurd (ground (arith, e, h))), λ a. absurd (ground (arith, e, a.0)))
  | inr e ↦ (
    (λ h. (e, (drivers_lem rest).0 (ground (arith, e, h)))),
    λ a. ground (arith, e, (drivers_lem rest).1 a.1),
  )
]

connections_lem :
    (default_name : String) (connections : List (String × ConnectionConfig))
    → (validate_connections default_name connections ≡ ok tt)
      ↔ ((is_some (lookup default_name connections) ≡ true) × All HasDriver connections)
unfolding validate_connections lookup
connections_lem default_name [] = ((λ h. absurd (cc)), λ u. let h = u.0 in absurd (cc))
connections_lem default_name (entry ∷ rest) =
    elim (Bool-cases (is_some (lookup default_name (entry ∷ rest)))) [
      | inl d ↦
          let (there, back) = drivers_lem (entry ∷ rest) in
          ((λ h. (d, there (rw d at h))), λ u. rw d (back u.1))
      | inr d ↦ ((λ h. absurd (cc (rw d at h))), λ u. let h = u.0 in absurd (cc))
    ]

-- A configuration is accepted exactly if its default is named and is one of its connections, and
-- every connection has a driver.
pub validate_iff : (config : ModuleOptions) → (validate (some config) ≡ ok tt) ↔ IsUsable config
unfolding validate
validate_iff config =
    let (there, back) = connections_lem config.default config.connections in
    elim (Bool-cases (same config.default "")) [
      | inl e ↦ ((λ h. absurd (cc (rw e at h))), λ u. let h = u.named in absurd (cc))
      | inr e ↦ (
        (λ h. let (d, a) = there (rw e at h) in record { named = e; declared = d; drivers = a }),
        λ u. rw e (back (u.declared, u.drivers)),
      )
    ]
