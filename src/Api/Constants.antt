-- ===== src/Api/Constants.antt =====
-- pkg/constants/constants.go. The types `ResourceLimiterType` and `ResourceLimiterNamespace` of
-- some constants are renamings of `string`.
use resourcelimiter.Prelude.{String}

abbrev pub retrain_type_limits_cpu : String
retrain_type_limits_cpu = "limits.cpu"

abbrev pub retrain_type_limits_memory : String
retrain_type_limits_memory = "limits.memory"

abbrev pub retrain_type_requests_cpu : String
retrain_type_requests_cpu = "requests.cpu"

abbrev pub retrain_type_requests_memory : String
retrain_type_requests_memory = "requests.memory"

abbrev pub ignore_kube_system : String
ignore_kube_system = "kube-system"

abbrev pub ignore_kube_public : String
ignore_kube_public = "kube-public"

abbrev pub default_finalizer : String
default_finalizer = "resourcelimiter.finalizer"

abbrev pub mutate_namespace_label : String
mutate_namespace_label = "resourcelimiter-mutate"

abbrev pub validate_namespace_label : String
validate_namespace_label = "resourcelimiter-validate"

abbrev pub ready : String
ready = "ready"

abbrev pub stopped : String
stopped = "stopped"
