-- ===== src/Auth/Policy.antt =====
-- The roles, the claims of a caller (backend/internal/auth/rbac.go and oidc.go) and the built-in rows
-- of the permission matrix (backend/internal/auth/permission.go).
use cooker.Prelude.{String, List, [], ◌∷◌}

abbrev pub role_admin : String
role_admin = "admin"

abbrev pub role_operator : String
role_operator = "operator"

abbrev pub role_approver : String
role_approver = "approver"

abbrev pub role_viewer : String
role_viewer = "viewer"

pub record Claims : Type 0 where
  pub subject : String
  pub email : String
  pub name : String
  pub groups : List String
  pub roles : List String
  pub acr : String
  pub amr : List String

pub record PolicyEntry : Type 0 where
  pub resource : String
  pub action : String
  pub allowed_roles : List String

abbrev pub resource_pipeline : String
resource_pipeline = "pipeline"

abbrev pub resource_run : String
resource_run = "run"

abbrev pub resource_app : String
resource_app = "app"

abbrev pub resource_environment : String
resource_environment = "environment"

abbrev pub resource_secret : String
resource_secret = "secret"

abbrev pub resource_host : String
resource_host = "host"

abbrev pub resource_registry : String
resource_registry = "registry"

abbrev pub resource_cluster : String
resource_cluster = "cluster"

abbrev pub resource_docker : String
resource_docker = "docker"

abbrev pub resource_kubernetes : String
resource_kubernetes = "kubernetes"

abbrev pub resource_promotion : String
resource_promotion = "promotion"

abbrev pub resource_webhook : String
resource_webhook = "webhook"

abbrev pub action_read : String
action_read = "read"

abbrev pub action_create : String
action_create = "create"

abbrev pub action_update : String
action_update = "update"

abbrev pub action_delete : String
action_delete = "delete"

abbrev pub action_reveal : String
action_reveal = "reveal"

abbrev pub action_approve : String
action_approve = "approve"

abbrev pub action_invoke : String
action_invoke = "invoke"

-- The rows of the permission matrix.
abbrev pub default_policy : List PolicyEntry
default_policy =
    record {
      resource = resource_pipeline;
      action = action_read;
      allowed_roles = role_admin ∷ role_operator ∷ role_approver ∷ role_viewer ∷ [];
    }
    ∷ record {
      resource = resource_run;
      action = action_read;
      allowed_roles = role_admin ∷ role_operator ∷ role_approver ∷ role_viewer ∷ [];
    }
    ∷ record {
      resource = resource_app;
      action = action_read;
      allowed_roles = role_admin ∷ role_operator ∷ role_approver ∷ role_viewer ∷ [];
    }
    ∷ record {
      resource = resource_environment;
      action = action_read;
      allowed_roles = role_admin ∷ role_operator ∷ role_approver ∷ role_viewer ∷ [];
    }
    ∷ record {
      resource = resource_host;
      action = action_read;
      allowed_roles = role_admin ∷ role_operator ∷ role_approver ∷ role_viewer ∷ [];
    }
    ∷ record {
      resource = resource_registry;
      action = action_read;
      allowed_roles = role_admin ∷ role_operator ∷ role_approver ∷ role_viewer ∷ [];
    }
    ∷ record {
      resource = resource_cluster;
      action = action_read;
      allowed_roles = role_admin ∷ role_operator ∷ role_approver ∷ role_viewer ∷ [];
    }
    ∷ record {
      resource = resource_docker;
      action = action_read;
      allowed_roles = role_admin ∷ role_operator ∷ role_approver ∷ role_viewer ∷ [];
    }
    ∷ record {
      resource = resource_kubernetes;
      action = action_read;
      allowed_roles = role_admin ∷ role_operator ∷ role_approver ∷ role_viewer ∷ [];
    }
    ∷ record {
      resource = resource_pipeline;
      action = action_create;
      allowed_roles = role_admin ∷ role_operator ∷ [];
    }
    ∷ record {
      resource = resource_pipeline;
      action = action_update;
      allowed_roles = role_admin ∷ role_operator ∷ [];
    }
    ∷ record {
      resource = resource_pipeline;
      action = action_invoke;
      allowed_roles = role_admin ∷ role_operator ∷ [];
    }
    ∷ record {
      resource = resource_run;
      action = action_update;
      allowed_roles = role_admin ∷ role_operator ∷ [];
    }
    ∷ record {
      resource = resource_app;
      action = action_create;
      allowed_roles = role_admin ∷ role_operator ∷ [];
    }
    ∷ record {
      resource = resource_app;
      action = action_update;
      allowed_roles = role_admin ∷ role_operator ∷ [];
    }
    ∷ record {
      resource = resource_app;
      action = action_invoke;
      allowed_roles = role_admin ∷ role_operator ∷ [];
    }
    ∷ record {
      resource = resource_environment;
      action = action_create;
      allowed_roles = role_admin ∷ role_operator ∷ [];
    }
    ∷ record {
      resource = resource_environment;
      action = action_update;
      allowed_roles = role_admin ∷ role_operator ∷ [];
    }
    ∷ record {
      resource = resource_host;
      action = action_create;
      allowed_roles = role_admin ∷ role_operator ∷ [];
    }
    ∷ record {
      resource = resource_host;
      action = action_update;
      allowed_roles = role_admin ∷ role_operator ∷ [];
    }
    ∷ record {
      resource = resource_pipeline;
      action = action_delete;
      allowed_roles = role_admin ∷ [];
    }
    ∷ record { resource = resource_app; action = action_delete; allowed_roles = role_admin ∷ [] }
    ∷ record {
      resource = resource_environment;
      action = action_delete;
      allowed_roles = role_admin ∷ [];
    }
    ∷ record { resource = resource_host; action = action_delete; allowed_roles = role_admin ∷ [] }
    ∷ record {
      resource = resource_registry;
      action = action_create;
      allowed_roles = role_admin ∷ [];
    }
    ∷ record {
      resource = resource_registry;
      action = action_delete;
      allowed_roles = role_admin ∷ [];
    }
    ∷ record {
      resource = resource_cluster;
      action = action_create;
      allowed_roles = role_admin ∷ [];
    }
    ∷ record {
      resource = resource_cluster;
      action = action_delete;
      allowed_roles = role_admin ∷ [];
    }
    ∷ record { resource = resource_secret; action = action_reveal; allowed_roles = role_admin ∷ [] }
    ∷ record { resource = resource_secret; action = action_update; allowed_roles = role_admin ∷ [] }
    ∷ record { resource = resource_secret; action = action_delete; allowed_roles = role_admin ∷ [] }
    ∷ record {
      resource = resource_promotion;
      action = action_approve;
      allowed_roles = role_admin ∷ role_approver ∷ [];
    }
    ∷ record {
      resource = resource_promotion;
      action = action_invoke;
      allowed_roles = role_admin ∷ role_operator ∷ [];
    }
    ∷ record {
      resource = resource_webhook;
      action = action_update;
      allowed_roles = role_admin ∷ [];
    }
    ∷ []
