-- ===== src/Instances/Apart.antt =====
-- The directories of two instances.
use smoothnas.Prelude.{ℕ, ◌<◌, ◌≡◌, ap, List, arith, ==_iff}
use smoothnas.Prelude.Text.{Text, text_eq}
use smoothnas.Prelude.Words.{i63}
use smoothnas.Monitor.Format.{format_int, read_int64, read-format_int64}

pub printed_apart : (n m : ℕ) → n < i63 → m < i63 → format_int n ≡ format_int m → n ≡ m
unfolding format_int
printed_apart n m hn hm h = ground (
  arith,
  read-format_int64 n (omega arith),
  read-format_int64 m (omega arith),
  ap read_int64 h,
  ==_iff n i63,
  ==_iff m i63,
)
