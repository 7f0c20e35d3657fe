-- ===== src/Api/Kube.antt =====
-- The Kubernetes objects, with the fields that the controllers read or write.
use dex_operator.Common.{ℕ, List, Str, Assoc}

-- `types.NamespacedName`
pub record Key : Type 0 where
  pub namespace : Str
  pub name : Str

-- `corev1.SecretReference`
pub record SecretReference : Type 0 where
  pub namespace : Str
  pub name : Str

pub data ConditionStatus : Type 0 where
  condition_true condition_false condition_unknown : ConditionStatus

-- `metav1.Condition`, without the times, which the controllers leave to the library.
pub record Condition : Type 0 where
  pub type : Str
  pub status : ConditionStatus
  pub reason : Str
  pub message : Str

-- `corev1.Secret`. The resource version stands for the metadata that the API server sets.
pub record Secret : Type 0 where
  pub namespace : Str
  pub name : Str
  pub labels : Assoc Str
  pub annotations : Assoc Str
  pub owners : List Key
  pub resource_version : ℕ
  pub type : Str
  pub content : Assoc Str

-- `&corev1.Secret{}`
abbrev pub empty_secret : Secret
empty_secret = record {
  namespace = List.[];
  name = List.[];
  labels = List.[];
  annotations = List.[];
  owners = List.[];
  resource_version = 0;
  type = List.[];
  content = List.[];
}

pub record ClusterRoleBinding : Type 0 where
  pub name : Str

pub record ConfigMap : Type 0 where
  pub namespace : Str
  pub name : Str
  pub content : Assoc Str

-- `metav1.OwnerReference`, by its kind and name
pub record OwnerReference : Type 0 where
  pub kind : Str
  pub name : Str

-- `appsv1.Deployment`: its metadata, and the annotations of its pod template
pub record Deployment : Type 0 where
  pub namespace : Str
  pub name : Str
  pub owner_references : List OwnerReference
  pub generation : ℕ
  pub template_annotations : Assoc Str

-- `corev1.EnvVar` with a `SecretKeyRef` source
pub record EnvVar : Type 0 where
  pub name : Str
  pub secret_name : Str
  pub secret_key : Str

-- `corev1.Volume` with a secret source
pub record Volume : Type 0 where
  pub name : Str
  pub secret_name : Str

pub record VolumeMount : Type 0 where
  pub name : Str
  pub mount_path : Str
