-- ===== src/Redirector/Order.antt =====
-- The calls of nf_addRule and nf_addRuleEx in NetFilterCore::Start of netfilter/SocksRedirector.cpp, as
-- the list that they build: `toHead` puts a rule at the head of the list, and else it goes to the
-- tail, as netfilter/include/nfapi.h documents it. A call that is not answered with success adds
-- nothing.
use mathlib.Core.List.{append_assoc, append-nil}
use qv_plugin_netfilter.Base.{
  ◌≡◌, refl, sym, ap, ◌∙◌, Bool, true, false, List, [], ◌∷◌, ◌++◌, map, ◌==◌, if◌then◌else◌,
  Bool-cases, inl, inr,
}
use qv_plugin_netfilter.Base.State.{pure, ◌>>=◌}
use qv_plugin_netfilter.System.{
  SysCall, Event, World, Os, perform, nf_init, nf_add_rule, nf_add_rule_ex,
}
use qv_plugin_netfilter.Redirector.{
  add_rules, add_rules_ex, add_user_rules, install, nf_status_success,
}
use qv_plugin_netfilter.Redirector.Rules.{
  NfRule, NfRuleEx, FilterRule, Inet, user_rule, private_rules, proxy_all,
}

pub data DriverRule : Type 0 where
  plain : NfRule → DriverRule
  extended : NfRuleEx → DriverRule

abbrev pub placed : DriverRule → Bool → List DriverRule → List DriverRule
placed r to_head rules = if to_head then r ∷ rules else rules ++ r ∷ []

-- What a call that succeeds makes of the list, the head first.
unfoldable pub place : SysCall → List DriverRule → List DriverRule
place (nf_add_rule r to_head) rules = placed (plain r) to_head rules
place (nf_add_rule_ex r to_head) rules = placed (extended r) to_head rules
place _ rules = rules

-- The list that the calls built which were answered with success.
unfoldable pub driver_rules : List Event → List DriverRule
driver_rules [] = []
driver_rules (e ∷ trace) =
    if e.answer == nf_status_success then place e.call (driver_rules trace) else driver_rules trace

-- The rules of the user, the last one first, before those that are there.
abbrev pub stacked : List FilterRule → List DriverRule → List DriverRule
stacked [] rules = rules
stacked (r ∷ rs) rules = stacked rs (extended (user_rule r) ∷ rules)

-- The driver takes every rule.
pub record TakesRules (os : Os) : Type 0 where
  pub plain_taken :
      (trace : List Event) (r : NfRule) (b : Bool)
      → os.answer trace (nf_add_rule r b) ≡ nf_status_success
  pub extended_taken :
      (trace : List Event) (r : NfRuleEx) (b : Bool)
      → os.answer trace (nf_add_rule_ex r b) ≡ nf_status_success

module _ ⦃os : Os⦄ where
  -- A call that leaves the list alone, whatever its answer.
  pub driver_rules-skip :
      (c : SysCall) (w : World)
      → ((rules : List DriverRule) → place c rules ≡ rules)
      → driver_rules (perform c w).1.trace ≡ driver_rules w.trace
  unfolding driver_rules perform
  driver_rules-skip c w n = elim (Bool-cases (os.answer w.trace c == nf_status_success)) [
    | inl taken ↦ rw taken (n (driver_rules w.trace))
    | inr refused ↦ rw refused refl
  ]

  driver_rules-take :
      (c : SysCall) (w : World)
      → os.answer w.trace c ≡ nf_status_success
      → driver_rules (perform c w).1.trace ≡ place c (driver_rules w.trace)
  unfolding driver_rules perform
  driver_rules-take c w e = rw e refl

module _ ⦃os : Os⦄ (takes : TakesRules os) where
  add_rules-order :
      (rs : List NfRule) (w : World)
      → driver_rules (add_rules rs w).1.trace ≡ driver_rules w.trace ++ map plain rs
  unfolding add_rules ◌>>=◌ pure place
  add_rules-order [] w = sym (append-nil _)
  add_rules-order (r ∷ rs) w =
      add_rules-order rs (perform (nf_add_rule r false) w).1
      ∙ ap (λ x. x ++ map plain rs)
          (driver_rules-take (nf_add_rule r false) w (takes.plain_taken w.trace r false))
      ∙ append_assoc (driver_rules w.trace) (plain r ∷ []) (map plain rs)

  add_rules_ex-order :
      (rs : List NfRuleEx) (w : World)
      → driver_rules (add_rules_ex false rs w).1.trace ≡ driver_rules w.trace ++ map extended rs
  unfolding add_rules_ex ◌>>=◌ pure place
  add_rules_ex-order [] w = sym (append-nil _)
  add_rules_ex-order (r ∷ rs) w =
      add_rules_ex-order rs (perform (nf_add_rule_ex r false) w).1
      ∙ ap (λ x. x ++ map extended rs)
          (driver_rules-take (nf_add_rule_ex r false) w (takes.extended_taken w.trace r false))
      ∙ append_assoc (driver_rules w.trace) (extended r ∷ []) (map extended rs)

  add_user_rules-order :
      (rs : List FilterRule) (w : World)
      → driver_rules (add_user_rules rs w).1.trace ≡ stacked rs (driver_rules w.trace)
  unfolding add_user_rules ◌>>=◌ pure place
  add_user_rules-order [] w = refl
  add_user_rules-order (r ∷ rs) w =
      add_user_rules-order rs (perform (nf_add_rule_ex (user_rule r) true) w).1
      ∙ ap (stacked rs) (
          driver_rules-take (nf_add_rule_ex (user_rule r) true) w
            (takes.extended_taken w.trace (user_rule r) true))

  filled :
      ⦃inet : Inet⦄ (rules : List FilterRule) (w : World)
      → driver_rules
          (add_rules_ex false proxy_all
            (add_user_rules rules (add_rules private_rules w).1).1).1.trace
        ≡ stacked rules (driver_rules w.trace ++ map plain private_rules) ++ map extended proxy_all
  filled rules w =
      add_rules_ex-order proxy_all (add_user_rules rules (add_rules private_rules w).1).1
      ∙ ap (λ x. x ++ map extended proxy_all)
          (add_user_rules-order rules (add_rules private_rules w).1
            ∙ ap (stacked rules) (add_rules-order private_rules w))

  pub install-order :
      ⦃inet : Inet⦄ (rules : List FilterRule) (w : World)
      → driver_rules (install rules w).1.trace ≡ (
          if os.answer w.trace nf_init == nf_status_success
          then stacked rules (driver_rules w.trace ++ map plain private_rules)
            ++ map extended proxy_all
          else driver_rules w.trace)
  unfolding install place ◌>>=◌ pure perform add_rules_ex
  install-order rules w =
      let started = driver_rules-skip nf_init w (λ r. refl) in
      elim (Bool-cases (os.answer w.trace nf_init == nf_status_success)) [
        | inl loaded ↦
            rw (loaded, install)
              (filled rules (perform nf_init w).1
                ∙ ap (λ x. stacked rules (x ++ map plain private_rules) ++ map extended proxy_all)
                    started)
        | inr refused ↦ rw (refused, install) started
      ]
