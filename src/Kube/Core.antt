-- ===== src/Kube/Core.antt =====
-- corev1: references, environment variables, containers, volumes and pods.
use dataprotection.Base.{List, Option, Text, ℤ}
use dataprotection.Kube.Meta.{TextMap, ObjectMeta}

pub record LocalObjectReference : Type 0 where
  pub name : Text

pub record SecretKeySelector : Type 0 where
  pub name : Text
  pub key : Text

pub record EnvVar : Type 0 where
  pub name : Text
  pub value : Text
  pub secret_key_ref : Option SecretKeySelector

pub record Toleration : Type 0 where
  pub key : Text
  pub operator : Text
  pub value : Text
  pub effect : Text
  pub toleration_seconds : Option ℤ

pub record ResourceRequirements : Type 0 where
  pub requests : Option TextMap
  pub limits : Option TextMap

pub record VolumeMount : Type 0 where
  pub name : Text
  pub mount_path : Text

pub data VolumeSource : Type 0 where
  empty_dir : VolumeSource
  nfs_volume : (server path : Text) → VolumeSource

pub record Volume : Type 0 where
  pub name : Text
  pub source : VolumeSource

pub record Container : Type 0 where
  pub name : Text
  pub image : Text
  pub image_pull_policy : Text
  pub command : List Text
  pub args : List Text
  pub env : List EnvVar
  pub working_dir : Text
  pub volume_mounts : List VolumeMount
  pub resources : ResourceRequirements

pub record PodSpec : Type 0 where
  pub restart_policy : Text
  pub service_account_name : Text
  pub priority_class_name : Text
  pub node_selector : TextMap
  pub tolerations : List Toleration
  pub volumes : List Volume
  pub init_containers : List Container
  pub containers : List Container

pub record ContainerStateTerminated : Type 0 where
  pub exit_code : ℤ
  pub reason : Text
  pub message : Text

pub record ContainerStateWaiting : Type 0 where
  pub reason : Text

pub record ContainerStatus : Type 0 where
  pub name : Text
  pub terminated : Option ContainerStateTerminated
  pub waiting : Option ContainerStateWaiting

pub record Pod : Type 0 where
  pub metadata : ObjectMeta
  pub open metadata use *
  pub phase : Text
  pub init_container_statuses : List ContainerStatus
  pub container_statuses : List ContainerStatus
