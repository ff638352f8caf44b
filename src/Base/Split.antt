-- ===== src/Base/Split.antt =====
-- `str::split` at a character, which yields at least one piece; drmemd/src/backends/redis.rs and
-- drivers/drmem-drv-ntp/src/driver.rs call it.
use drmem.Base.{ℕ, List, [], ◌∷◌, ◌==◌, if◌then◌else◌}
use drmem.Api.Value.{Text}

abbrev push : ℕ → List Text → List Text
push c [] = (c ∷ []) ∷ []
push c (t ∷ ts) = (c ∷ t) ∷ ts

unfoldable pub split : ℕ → Text → List Text
split sep [] = [] ∷ []
split sep (c ∷ s) = let rest = split sep s in if c == sep then [] ∷ rest else push c rest
