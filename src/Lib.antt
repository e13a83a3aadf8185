-- ===== src/Lib.antt =====
-- Verification library of crypti, the interpreter of a small language for cryptographic research.
--
-- The program. crypti reads a script (src/lex.c, src/syntax.c), builds a syntax tree
-- (src/syn_tree.c) and runs it (src/traverse.c, src/eval.c) over variables whose values are
-- numbers, strings and octet strings (src/var_op.c, src/str.c, src/octstr.c). Strings of both
-- kinds are byte buffers (src/buffer.c). Scripts call the digests of lib/crypto through
-- src/crypt_hashes.c. Tables of names, keywords and array elements are hash tables (src/hash.c).
-- This library models the digests with the table of their contexts, the byte buffers with the
-- strings on top of them, the stack that src/traverse.c and src/eval.c pass values on
-- (src/stack.c), the hash table with the scopes of names and the keywords that stand on it, the
-- lexer, and the parser with the tree that it builds.
--
-- The files.
--   Base, Base/*   numbers, words, bits and lists that the other modules share.
--   Run            what a C function may do: return (`ok`), end the process through
--                  `error(1, ...)` or a failed assertion (`die`), touch memory outside of an
--                  object (`fault`), or use up the fuel of a loop (`stuck`). `Ensures` rules out
--                  `fault` and `stuck`; `Returns` rules out `die` too.
--   Crypto/Stream, Crypto/Stream/Absorb
--                  the 64-byte block buffer that `md5_update`, `sha1_update` and `sha256_update`
--                  share, and its specification, which takes one byte at a time.
--   Crypto/Reference
--                  the padded message of RFC 1321 and FIPS 180 and the fold over its blocks.
--   Crypto/Md5     lib/crypto/md5.c: `transform`, `context_init`, `update`, `final` are
--                  `md5_transform`, `md5_context_init`, `md5_update`, `md5_final`.
--   Crypto/Sha     what lib/crypto/sha1.c and lib/crypto/sha256.c have in common; `update` is
--                  `sha1_update` and `sha256_update`, `finish` the part of `sha1_final` and
--                  `sha256_final` that pads.
--   Crypto/Sha1, Crypto/Sha256
--                  `sha1_hash` and `sha256_hash` (`hash_block`), the initial states, the digests.
--   Buffer         src/buffer.c: `ensure`, `put`, `get`, `trim`, `consume`, `reset`, `append`,
--                  `copy` and so on are the functions with the prefix `buffer_`. `cells` is the
--                  memory at `data`, `head` the write end and `tail` the read end. A `Store`
--                  gives buffers names, so that two arguments may be one object.
--   Buffer/Words   the functions on numbers of 16 and 32 bits.
--   Buffer/At      the functions at an offset, `buffer_peek` and `buffer_poke`.
--   Stack          src/stack.c: the stack of the interpreter; `push`, `pop` and so on are the
--                  functions with the prefix `stack_`.
--   Primes         src/primes.c: the sizes of hash tables.
--   Hash           src/hash.c: a slot is the list of its buckets; `insert`, `remove`, `lookup`
--                  and so on are the functions with the prefix `hash_table_`, and `grow_table`
--                  and `rehash` the first half of `_hash_table_insert`. `broken` is a return in
--                  the middle of a rehash for want of memory.
--   Hash/Chain, Hash/Slots, Hash/Rehash
--                  one slot, the array of slots, and the move of all entries to a larger array.
--   Hash/Map, Hash/Removal, Hash/Lookup, Hash/Iterate
--                  the table as a finite map, by operation.
--   Defaults       src/defaults.c: the hash and the comparison of C strings.
--   CryptHashes    src/crypt_hashes.c: the macros `generic_hash_init`, `generic_hash_update` and
--                  `generic_hash_finalize` are `hash_init`, `hash_update` and `hash_finalize`,
--                  which take what the macros are given as an `Algorithm`; CryptHashes/Algorithms
--                  has MD5, SHA-1 and SHA-256, and their laws.
--   IdTable        src/id_table.c: identifiers in nested scopes; the functions have the prefix
--                  `id_table_`.
--   LinkedList     src/list.c: `list_sort` with its stack of sorted pieces; LinkedList/Merging is
--                  about `stack_item_sort`, LinkedList/Sorting about the stack.
--   Array          src/array.c: arrays of variables under string keys; the functions have the
--                  prefix `arr_`. Array/Items and Array/Copies have their laws.
--   Scanner        src/lex.c: characters, and the loops over comments, names and strings.
--   Lexer          src/lex.c: `get_next_token`, with `symbol` for its switch, and the functions for
--                  the longer tokens under their own names. Lexer/Words, Lexer/Symbols,
--                  Lexer/Numbers and Lexer/Comments have the laws of each kind of token.
--   Syntax/Tree    src/syn_tree.c: the nodes, and the functions that make them, under their names.
--   Syntax/Stream, Syntax/Goals
--                  src/syntax.c: the variables of the parser as one record, the stream of tokens
--                  (`matches` is `match`), and the functions that call each other as goals.
--   Syntax/Expressions, Syntax/Operands, Syntax/Assignments, Syntax/Statements,
--   Syntax/Functions, Syntax/Grammar
--                  the functions of src/syntax.c under their names. A function takes the recursion
--                  as the argument `call`; `parse` ties the knot, with fuel for the depth of the
--                  calls and the turns of the loops. `program_start` is the beginning. The ten
--                  functions from `logic_or` to `mul_expr` have one shape, `binary`.
--   Syntax/Printing
--                  expressions apart from the source: how tightly each form binds, how it is
--                  written, and its tree.
--   Syntax/Reading, Syntax/RoundTrip, Syntax/Programs, Syntax/Assigning, Syntax/Blocks
--                  what each function reads, by the calls that it makes, up to whole programs.
--   Syntax/Invariant
--                  what no statement changes.
--   Syntax/Promises
--                  which pointers are null and which are sequences, where the source reads or casts
--                  them: a null pointer that `is_lvalue` reads and a cast of another node are a
--                  `fault`.
--   Syntax/Weights, Syntax/Total
--                  how much fuel the parser needs: the weight of what is left to read falls with
--                  each token that is matched, and between two tokens the calls go down in rank.
--   Token, Keyword include/lex.h and src/keyword.c: the table of keywords.
--   Str            src/str.c and src/octstr.c: copy, append and concatenation.
--   Octstr         src/octstr.c: the bitwise operators.
--
-- Bounds and fuel. `size_t` has 64 bits and `unsigned int` 32; each sum and difference of the
-- source that may wrap is written as a remainder. The loop of `buffer_ensure` has fuel 64: the
-- size at least doubles from 1, so it passes SSIZE_MAX before. The loop over whole blocks of an
-- update has as fuel the length of the message, of which each turn takes 64 bytes. The digests
-- are those of little-endian hosts in the portable branches of the byte order macros; `msglen`
-- is a `u_int32_t`, so one update takes less than 2 ^ 32 bytes. An iteration over a hash table
-- makes one call more than the table counts entries. The collision rate, a quotient of two
-- floats, is compared as a product of whole numbers, which agrees below 2 ^ 23 entries.
-- Fuel bounds the loops of the lexer that do not stop at the end of the file, and the comments
-- before a token; the laws say how much is enough, or that none is. The fuel of the parser falls
-- with each call and each turn of a loop; a bound for it comes with each result. The loop of
-- `get_name_arr` takes at most 256 names, so it needs none.
--
-- Outside of the model. The C library's allocator is a parameter with two documented laws: a new
-- block has the size that is asked for, and a block that is made larger keeps its bytes.
-- Null pointers, the block that holds `struct buffer` itself, freeing, and the warnings that are
-- printed for a size of 0 are left out. The allocator of the hash table may refuse a block, by its
-- size. The nodes of the syntax tree are made without it: `xmalloc` ends the process where a node
-- or the array of its nodes gets no memory, so what is said of the parser holds where memory is
-- granted. Its numbers `nerrors`, `is_cycle` and `is_func` and the counters of src/list.c are `int`
-- and have no bound here, which agrees up to 2 ^ 31 - 1 errors, nested loops or items.
-- The other components are not modelled here: the interpreter, Whirlpool and input and output. The
-- parser takes the tokens of its input as a list, and those of the files that it imports from a
-- file system that is a parameter. The numbers of the separate library libmpl are a parameter of
-- the lexer: what they are set to, their sums and their products.
pub mod Base
pub mod Crypto
pub mod Run
pub mod Buffer
pub mod Str
pub mod Stack
pub mod Primes
pub mod Hash
pub mod Defaults
pub mod CryptHashes
pub mod IdTable
pub mod Token
pub mod Keyword
pub mod LinkedList
pub mod Array
pub mod Scanner
pub mod Lexer
pub mod Octstr
pub mod Syntax
