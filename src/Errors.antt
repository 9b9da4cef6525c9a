-- ===== src/Errors.antt =====
-- The errors that the modelled functions return and the values that they panic with: one
-- constructor for each message of the source, with the values that its format prints.
use core_go_nopgp.Base.{ℤ, ℕ, Str}

pub data Error : Type 0 where
  -- A fault of the Go runtime: a nil pointer is dereferenced.
  nil_dereference : Error
  -- An error that a library returned, passed on as it is.
  external : Str → Error
  -- config
  invalid_config_context invalid_service_context : Error
  -- crypto/crypto.go; log.Fatalf ends the program, and is a panic here
  no_webhook_key webhook_key_not_base64 webhook_key_length no_network_key network_key_invalid :
      Error
  encryption_failed expiration_of_zero nonce_failed : Error
  -- database
  invalid_database_context : Error
  -- client/graphql.go
  no_origin : Str → Error
  bad_status : Str → ℕ → Error
  -- auth/bearer.go
  token_not_marshalled : Error
  grant_without_scope : Str → Error
  invalid_access_mode : Error
  -- auth/middleware.go
  invalid_auth_context : Error
  account_suspended : Str → Error
  unknown_client : Str → Error
  multiple_accounts multiple_users multiple_tokens : Error
  unparsable_remote_address : Error
  profile_from_ourselves : Error
  upsert_failed json_programmer_error cidr_invalid : Error
  expired_webhook_token : Error
  -- server/directives.go
  internal_denied private_denied webhook_write_denied anonymous_denied method_denied : Error
  unknown_auth_method : Error
  -- webhooks
  legacy_unsupported web_unsupported internal_unsupported recursive_webhook unreachable : Error
  no_webhook_context todo token_hash_not_hex invalid_query : Error
  no_server : Error
  too_complex : ℤ → ℤ → Error
  delivery_status : ℕ → Str → Error
  -- model/cursor.go
  cursor_not_string invalid_cursor : Error
  -- email/send.go
  smtp_port_unset smtp_port_not_integer smtp_host_missing smtp_from_missing smtp_from_invalid :
      Error
  smtp_encryption_invalid smtp_auth_invalid smtp_user_missing smtp_password_missing : Error
  no_starttls no_smtp_auth : Error
  -- email/worker.go
  no_email_worker queue_from_missing owner_name_missing owner_email_missing : Error
  invalid_header_field : Str → Error → Error
  -- server/email.go
  internal_system_error report_address_invalid no_operation_context : Error
  -- server/server.go; log.Fatalf ends the program, and is a panic here
  no_connection_string max_complexity_invalid invalid_remote_address no_remote_address : Error
  -- redis/middleware.go, s3/middleware.go, webhooks/middleware.go
  invalid_redis_context invalid_minio_context no_webhook_queue no_legacy_queue : Error
  -- database/sq.go
  unknown_selectable : Error
  -- config/config.go and cmd/token/main.go
  options_invalid index_out_of_range : Error
  config_not_loaded : Error → Error
