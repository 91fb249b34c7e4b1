-- ===== src/Epx.antt =====
-- include/epx.h: the settings of the build.
use epx_c.Base.{ℕ}

-- `N`
abbrev pub n_replicas : ℕ
n_replicas = 3

-- `KEY_SIZE`, with the terminating zero
abbrev pub key_size : ℕ
key_size = 3

abbrev pub max_deps : ℕ
max_deps = 8

-- `TX_SIZE`
abbrev pub max_tx : ℕ
max_tx = 100
