-- ===== src/Fcntl/Tests.antt =====
-- The theorems on src/ep_fcntl.h over a small kernel.
use libep.Base.{ℕ, refl, Option, none, some, ◌==◌, if◌then◌else◌}
use libep.Base.Int.{pos}
use libep.Fcntl.Defs.{Kernel}
use libep.Fcntl.Flag.{KernelLaws}

abbrev Table : Type 0
Table = ℕ → Option ℕ

abbrev small : Kernel Table
small = record {
  getfl = λ fd k. (k fd, k);
  setfl = λ fd f k. (pos 0, λ i. if i == fd then some f else k i);
}

abbrev small-KernelLaws : KernelLaws small
small-KernelLaws = record {
  flags = λ k fd. k fd;
  get = λ k fd. refl;
  set_open = λ k fd old new h. (refl, λ i. refl);
}

abbrev table : Table
table fd = if fd == 3 then some 2 else none
