-- ===== src/Webhook/Validate/Workloads.antt =====
-- What the checks of `validate` accept of a pod, a deployment or a daemon set.
use resourcelimiter.Prelude.{
  String, ◌≡◌, refl, ◌||◌, Bool, true, false, Option, none, some, List, [], ◌∷◌, is_empty, Map,
  at_key, All,
}
use resourcelimiter.Controller.Platform.{Quantities}
use resourcelimiter.Webhook.Admission.{Container, Codec}
use resourcelimiter.Webhook.Validate.{is_unset, check_containers, check_resources}
use resourcelimiter.Webhook.Validate.Verdicts.{
  Decides, then-Decides, Decides-iff, pass-Decides, refuse-Decides, Parses, must_parse-Decides,
}

or-false : (a b : Bool) → (a || b) ≡ false → (a ≡ false) × (b ≡ false)
or-false false false e = (refl, refl)
or-false false true e = cc
or-false true b e = cc

false-or : (a b : Bool) → a ≡ false → b ≡ false → (a || b) ≡ false
false-or a b p q = rw (p, q)

module _ (Q : Quantities) (J : Codec Q.Quantity) where
  open Q use {Quantity, show, zero_quantity}

  -- The text of a quantity of the map is a quantity again.
  abbrev pub Reads : Map Quantity → Type 0
  Reads m =
      Parses Q J (show (at_key zero_quantity "cpu" m))
      × Parses Q J (show (at_key zero_quantity "memory" m))

  -- There are resources, and those of the cpu and the memory are read back.
  abbrev pub IsGiven : Option (Map Quantity) → Type 0
  IsGiven none = ⊥
  IsGiven (some m) = (is_empty m ≡ false) × Reads m

  pub record IsLimited (cont : Container Quantity) : Type 0 where
    pub limits : IsGiven cont.limits
    pub requests : IsGiven cont.requests

  abbrev Readable : Option (Map Quantity) → Type 0
  Readable none = Unit
  Readable (some m) = Reads m

  check_resources-Decides :
      (o : Option (Map Quantity)) → Decides (Readable o) (check_resources Q J o)
  check_resources-Decides none = pass-Decides
  check_resources-Decides (some m) =
      then-Decides _ _ (must_parse-Decides Q J _) (must_parse-Decides Q J _)

  set_of : (o : Option (Map Quantity)) → is_unset Q J o ≡ false → Readable o → IsGiven o
  set_of none e r = cc
  set_of (some m) e r = (e, r)

  of_set : (o : Option (Map Quantity)) → IsGiven o → (is_unset Q J o ≡ false) × Readable o
  of_set none s = absurd s
  of_set (some m) s = s

  pub check_containers-Decides :
      (unset : String) (containers : List (Container Quantity))
      → Decides (All IsLimited containers) (check_containers Q J unset containers)
  unfolding check_containers
  check_containers-Decides unset [] = pass-Decides
  check_containers-Decides unset (cont ∷ containers) =
      Decides-iff _
        (λ (((u, l), r), rest).
          let (a, b) = or-false (is_unset Q J cont.limits) (is_unset Q J cont.requests) u in
          (record { limits = set_of cont.limits a l; requests = set_of cont.requests b r }, rest))
        (λ (c, rest).
          let (a, l) = of_set cont.limits c.limits in
          let (b, r) = of_set cont.requests c.requests in (((false-or _ _ a b, l), r), rest))
        (then-Decides _ _
          (then-Decides _ _
            (then-Decides _ _
              (refuse-Decides (is_unset Q J cont.limits || is_unset Q J cont.requests) unset)
              (check_resources-Decides cont.limits))
            (check_resources-Decides cont.requests))
          (check_containers-Decides unset containers))
