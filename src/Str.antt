-- ===== src/Str.antt =====
-- src/str.c and src/octstr.c: strings with a NUL behind their bytes, and octet strings without,
-- over buffers that may be one object under two names.
pub mod Concat
mod Tests
use crypti.Run.{Run, ok, die, guard, ◌>>=◌, ◌>>◌}
use crypti.Base.{ℕ, not, ◌==◌}
use crypti.Buffer.{Allocator, Store, set_buffer, buffer_size, buffer_zero, copy, append}

-- `str_copy` and `octstr_copy`
unfoldable pub str_copy : Allocator → Store → ℕ → ℕ → Run Store
str_copy alloc s dst src = copy alloc s dst src (buffer_size (s src))

-- `str_append_str`
pub str_append_str : Allocator → Store → ℕ → ℕ → Run Store
str_append_str alloc s dst src = do
  t ← append alloc s dst src (buffer_size (s src))
  d ← buffer_zero alloc (t dst)
  ok (set_buffer t dst d)

-- `str_concat`
pub str_concat : Allocator → Store → ℕ → ℕ → ℕ → Run Store
str_concat alloc s dst a b = do t ← str_copy alloc s dst a; str_append_str alloc t dst b

-- `octstr_append_octstr`
pub octstr_append_octstr : Allocator → Store → ℕ → ℕ → Run Store
octstr_append_octstr alloc s dst src = append alloc s dst src (buffer_size (s src))

-- `octstr_concat`; a failed `assert` ends the process too.
pub octstr_concat : Allocator → Store → ℕ → ℕ → ℕ → Run Store
octstr_concat alloc s dst a b = do
  guard (not (dst == a))
  t ← str_copy alloc s dst a
  octstr_append_octstr alloc t dst b
