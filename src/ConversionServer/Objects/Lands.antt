-- ===== src/ConversionServer/Objects/Lands.antt =====
-- The reading of an object ends in a panic or with a value: it does not return early.
use resourcelimiter.Prelude.{String, [], Map, insert, arith}
use resourcelimiter.ConversionServer.Json.{
  Value, Items, done, item, Fields, end, field, value_at, Attempt, panicked, returned, value, ◌>>=◌,
  as_bool, as_string, as_array, as_object,
}
use resourcelimiter.ConversionServer.Objects.{
  read_targets, read_types, read_quotas, read_v1beta1, read_v1beta2,
}

-- What holds of the value, or of the early return.
module _ {Response A : Type 0} where
  abbrev pub Lands : (Response → Type 0) → (A → Type 0) → Attempt Response A → Type 0
  Lands R P panicked = Unit
  Lands R P (returned r) = R r
  Lands R P (value a) = P a

module _ {Response A B : Type 0} where
  pub Lands-bind :
      (R : Response → Type 0) (P : A → Type 0) (S : B → Type 0) (m : Attempt Response A)
      (f : A → Attempt Response B)
      → Lands R P m
      → ((a : A) → P a → Lands R S (f a))
      → Lands R S (m >>= f)
  Lands-bind R P S panicked f h k = tt
  Lands-bind R P S (returned r) f h k = h
  Lands-bind R P S (value a) f h k = k a h

abbrev pub Any : {A : Type 0} → A → Type 0
Any a = Unit

module _ {Response : Type 0} (R : Response → Type 0) where
  as_bool-Lands : (v : Value) → Lands R Any (as_bool v)
  as_bool-Lands v = ground arith

  as_string-Lands : (v : Value) → Lands R Any (as_string v)
  as_string-Lands v = ground arith

  as_array-Lands : (v : Value) → Lands R Any (as_array v)
  as_array-Lands v = ground arith

  as_object-Lands : (v : Value) → Lands R Any (as_object v)
  as_object-Lands v = ground arith

  read_targets-Lands : (items : Items) → Lands R Any (read_targets items)
  unfolding read_targets
  read_targets-Lands done = tt
  read_targets-Lands (item v items) =
      Lands-bind R Any Any (as_string v) _ (as_string-Lands v)
        (λ a _. Lands-bind R Any Any (read_targets items) _ (read_targets-Lands items) (λ b _. tt))

  read_types-Lands : (fields : Fields) (types : Map String) → Lands R Any (read_types fields types)
  unfolding read_types
  read_types-Lands end types = tt
  read_types-Lands (field k v fields) types =
      Lands-bind R Any Any (as_string v) _ (as_string-Lands v)
        (λ a _. read_types-Lands fields (insert k a types))

  pub read_v1beta1-Lands : (top : Fields) → Lands R Any (read_v1beta1 top)
  unfolding read_v1beta1
  read_v1beta1-Lands top =
      Lands-bind R Any Any (as_object (value_at "spec" top)) _ (as_object-Lands _) (λ spec _.
        Lands-bind R Any Any (as_array (value_at "targets" spec)) _ (as_array-Lands _) (λ items _.
          Lands-bind R Any Any (read_targets items) _ (read_targets-Lands items) (λ targets _.
            Lands-bind R Any Any (as_object (value_at "types" spec)) _ (as_object-Lands _)
              (λ fields _.
                Lands-bind R Any Any (read_types fields []) _ (read_types-Lands fields [])
                  (λ types _.
                    Lands-bind R Any Any (as_bool (value_at "applied" spec)) _ (as_bool-Lands _)
                      (λ b _. tt))))))

  quota_text :
      {A : Type 0} (name : String) (fields : Fields) (f : String → Attempt Response A)
      → ((a : String) → Lands R Any (f a))
      → Lands R Any (as_string (value_at name fields) >>= f)
  quota_text name fields f k =
      Lands-bind R Any Any (as_string (value_at name fields)) f (as_string-Lands _) (λ a _. k a)

  read_quotas-Lands : (items : Items) → Lands R Any (read_quotas items)
  unfolding read_quotas
  read_quotas-Lands done = tt
  read_quotas-Lands (item v items) =
      Lands-bind R Any Any (as_object v) _ (as_object-Lands v) (λ fields _.
        quota_text "name" fields _ (λ a. quota_text "cpu_requests" fields _ (λ b.
          quota_text "cpu_limits" fields _ (λ c. quota_text "mem_requests" fields _ (λ d.
            quota_text "mem_limits" fields _ (λ e.
              Lands-bind R Any Any (read_quotas items) _ (read_quotas-Lands items)
                (λ quotas _. tt)))))))

  pub read_v1beta2-Lands : (top : Fields) → Lands R Any (read_v1beta2 top)
  unfolding read_v1beta2
  read_v1beta2-Lands top =
      Lands-bind R Any Any (as_object (value_at "spec" top)) _ (as_object-Lands _) (λ spec _.
        Lands-bind R Any Any (as_array (value_at "targets" spec)) _ (as_array-Lands _) (λ items _.
          Lands-bind R Any Any (read_quotas items) _ (read_quotas-Lands items) (λ quotas _.
            Lands-bind R Any Any (as_bool (value_at "applied" spec)) _ (as_bool-Lands _)
              (λ b _. tt))))
