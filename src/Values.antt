-- ===== src/Values.antt =====
-- webhooks/middleware.go, redis/middleware.go and s3/middleware.go: values in a context, each under
-- a key of its package, and what reads them. A queue or a client is seen by its address.
use core_go_nopgp.Base.{ℕ, Option, Go, must, ok, ◌≡◌, refl}
use core_go_nopgp.Errors.{
  Error, no_webhook_queue, no_legacy_queue, invalid_redis_context, invalid_minio_context,
}

pub record Values : Type 0 where
  pub webhooks : Option ℕ
  pub legacy : Option ℕ
  pub redis : Option ℕ
  pub minio : Option ℕ

-- `Middleware` and `ForContext` of webhooks/middleware.go.
abbrev webhook_context : Values → ℕ → Values
webhook_context ctx given = record ctx { webhooks = Option.some given }

unfoldable pub webhook_middleware : {A : Type 0} → ℕ → (Values → A) → Values → A
webhook_middleware given next ctx = next (webhook_context ctx given)

unfoldable pub webhook_for_context : Values → Go Error ℕ
webhook_for_context ctx = must no_webhook_queue ctx.webhooks

-- `LegacyMiddleware` and `LegacyForContext` of webhooks/middleware.go.
abbrev legacy_context : Values → ℕ → Values
legacy_context ctx given = record ctx { legacy = Option.some given }

unfoldable pub legacy_middleware : {A : Type 0} → ℕ → (Values → A) → Values → A
legacy_middleware given next ctx = next (legacy_context ctx given)

unfoldable pub legacy_for_context : Values → Go Error ℕ
legacy_for_context ctx = must no_legacy_queue ctx.legacy

-- `Middleware`, `Context` and `ForContext` of redis/middleware.go.
abbrev redis_context : Values → ℕ → Values
redis_context ctx given = record ctx { redis = Option.some given }

unfoldable pub redis_middleware : {A : Type 0} → ℕ → (Values → A) → Values → A
redis_middleware given next ctx = next (redis_context ctx given)

unfoldable pub redis_for_context : Values → Go Error ℕ
redis_for_context ctx = must invalid_redis_context ctx.redis

-- `Middleware`, `Context` and `ForContext` of s3/middleware.go.
abbrev minio_context : Values → ℕ → Values
minio_context ctx given = record ctx { minio = Option.some given }

unfoldable pub minio_middleware : {A : Type 0} → ℕ → (Values → A) → Values → A
minio_middleware given next ctx = next (minio_context ctx given)

unfoldable pub minio_for_context : Values → Go Error ℕ
minio_for_context ctx = must invalid_minio_context ctx.minio

-- Behind the four middlewares each value is there, whatever was there before.
pub behind_all :
    (webhooks legacy redis minio : ℕ) (ctx : Values)
    → let seen =
        webhook_middleware webhooks
          (legacy_middleware legacy (redis_middleware redis (minio_middleware minio (λ v. v))))
          ctx in
      (webhook_for_context seen ≡ ok webhooks)
      × (legacy_for_context seen ≡ ok legacy)
      × (redis_for_context seen ≡ ok redis)
      × (minio_for_context seen ≡ ok minio)
unfolding webhook_middleware webhook_for_context legacy_middleware legacy_for_context
    redis_middleware redis_for_context minio_middleware minio_for_context
behind_all webhooks legacy redis minio ctx = (refl, refl, refl, refl)
