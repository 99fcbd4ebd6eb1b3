-- ===== src/Api/Meta.antt =====
-- The part of Kubernetes' object metadata that the program reads or writes.
use resourcelimiter.Prelude.{String, Option, List}

-- `metav1.TypeMeta`
pub record TypeMeta : Type 0 where
  pub kind : String
  pub api_version : String

-- `metav1.ObjectMeta`: a timestamp is present once the object is being deleted.
pub record ObjectMeta : Type 0 where
  pub name : String
  pub finalizers : List String
  pub deletion_timestamp : Option String
