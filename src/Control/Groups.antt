-- ===== src/Control/Groups.antt =====
-- backend/api/SystemControlHandler.cpp and backend/api/RequestHandler.cpp: theorems on the groups.
use everest_ui.Base.{◌≡◌, refl, sym, subst, Bool-cases, inl, inr, if◌then◌else◌}
use everest_ui.Base.Text.{Text, codes, eqb, eqb_iff}
use everest_ui.Api.Types.{unknown, control_group, to_module_group}

-- The two functions from names to groups agree on every name but that of the captures, which the
-- system control does not know.
pub control_group-to_module_group :
    (g : Text) → control_group g ≡ (if eqb g (codes "pcap") then unknown else to_module_group g)
unfolding control_group to_module_group eqb
control_group-to_module_group g = elim (Bool-cases (eqb g (codes "pcap"))) [
  | inl e ↦
      subst (λ g. control_group g ≡ (if eqb g (codes "pcap") then unknown else to_module_group g))
        (sym ((eqb_iff g (codes "pcap")).0 e)) refl
  | inr e ↦ rw e refl
]
