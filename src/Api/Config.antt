-- ===== src/Api/Config.antt =====
-- The serialized configurations: kcpv1.KubeAPIServerConfig, kcpv1.KubeControllerManagerConfig and
-- clientcmdapi.Config, with the fields that the code sets.
use hypershift_lite.Prelude.{String, List}
use hypershift_lite.Prelude.Dict.{Dict}
use hypershift_lite.Api.Objects.{Bytes}

-- An unstructured admission configuration with one list of strings.
pub record AdmissionObject : Type 0 where
  pub api_version : String
  pub kind : String
  pub list_name : String
  pub items : List String

pub record AdmissionPluginConfig : Type 0 where
  pub location : String
  pub configuration : AdmissionObject

pub record ServingInfo : Type 0 where
  pub bind_address : String
  pub bind_network : String
  pub cipher_suites : List String
  pub min_tls_version : String

pub record KubeApiServerConfig : Type 0 where
  pub kind : String
  pub api_version : String
  pub api_server_arguments : Dict (List String)
  pub plugin_config : Dict AdmissionPluginConfig
  pub serving_info : ServingInfo
  pub cors_allowed_origins : List String
  pub oauth_metadata_file : String
  pub console_public_url : String
  pub internal_registry_hostname : String
  pub default_node_selector : String
  pub service_account_public_key_files : List String
  pub services_subnet : String

pub record KubeControllerManagerConfig : Type 0 where
  pub kind : String
  pub api_version : String
  pub extended_arguments : Dict (List String)
  pub cert_file : String

pub record ConfigCluster : Type 0 where
  pub server : String
  pub certificate_authority_data : Bytes

pub record AuthInfo : Type 0 where
  pub client_certificate_data : Bytes
  pub client_key_data : Bytes

pub record ConfigContext : Type 0 where
  pub cluster : String
  pub auth_info : String
  pub namespace : String

pub record KubeConfig : Type 0 where
  pub kind : String
  pub api_version : String
  pub clusters : Dict ConfigCluster
  pub auth_infos : Dict AuthInfo
  pub contexts : Dict ConfigContext
  pub current_context : String
