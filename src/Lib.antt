-- ===== src/Lib.antt =====
-- Verification of the utility libraries of the Classic Forum.
--
-- The program is a forum: a server that keeps the threads, CGI programs that show and change
-- them, and libraries that both share. This development is about the libraries with the logic
-- that everything else stands on:
--
-- * Tree (src/treeutils.c, cf_tree_node_t of src/utils.h): the AVL tree. The pointer to a pointer
--   that the C functions change is an argument and a result; a null pointer that the code would
--   follow is `none`. `insert`, `remove`, `find`, `leftgrown` and so on are cf_tree_insert,
--   cf_tree_remove, cf_tree_find and cf_tree_leftgrown; `Outcome` is the return value 0, 1 or -1.
--   Tree.Avl has the height balance, Tree.Balanced how it is kept, Tree.Order what `compare` has
--   to be, Tree.Spec the tree as a sorted list, Tree.History runs of calls, Tree.Size the height.
-- * Str (src/stringutils.c, cf_string_t of src/utils.h): the growing string. `content` is the
--   allocated block, byte for byte; a write outside it, or a read of an argument
--   outside its block, is `none`. Str.Block has blocks and realloc, Str.Append the single calls, Str.Run runs of calls, Str.Equal the comparisons.
--   Str.Split is cf_split and cf_nsplit: a loop with fuel, one more than the length of the string,
--   since each round finds a place behind the last one.
-- * Utf8 (src/charconvert.c): utf8_to_unicode and unicode_to_utf8, bit for bit. Utf8.Decode and
--   Utf8.Encode read the bits as arithmetic; Utf8.RoundTrip and Utf8.Shortest relate the two;
--   Utf8.Strings and Utf8.Valid are about the loops over whole strings, is_valid_utf8_string and
--   cf_strlen_utf8 of src/stringutils.c.
-- * Message (src/messageutils.c, cf_message_t and cf_hierarchical_node_t of src/clientlib.h): the
--   messages of a thread as a chain with levels and as a tree of answers. Message.Build is
--   cf_msg_build_hierarchical_structure, and Message.Thread the shape of the trees that it builds;
--   Message.Filter is cf_msg_filter_invisible, Message.Chain the walks along the chain. Of a
--   message the fields that these functions read are kept.
-- * Entities (src/charconvert.c): htmlentities and print_htmlentities_encoded, which escape text
--   for HTML pages, and the text that both should give; the stream of the second is a parameter.
-- * Number (src/datautils.c): cf_str_to_uint64, and the body that cf_uint16_to_str,
--   cf_uint32_to_str and cf_uint64_to_str share. Number.Swap is the loop that reverses the digits
--   in the block. The first loop has as fuel the number and one more, since a round divides it by
--   10; the second has the count of the digits.
-- * Hash (src/hashlib.c, src/hashlib.h): cf_hash_new, cf_hash_set, cf_hash_set_static, cf_hash_get,
--   cf_hash_entry_delete, _cf_hash_save and _cf_hash_split. Hash.Chain is about one bucket,
--   Hash.Split about the doubling of the table, Hash.Reads about what a table reads as and
--   Hash.Run about runs of the operations. The hash function is a parameter; memory is found
--   whenever it is asked for. cf_hashsize is a shift of 32 bits, which C defines for sizes under
--   32 only: the theorems on runs are about tables of such sizes.
-- * Validate (src/validate.c): the classes of bytes, is_valid_hostname, and the parts that the
--   checks of links share; Validate.Http, Validate.Nntp and Validate.File have the checks of those
--   links. Validate.Grammar and Validate.Authority describe the loops by relations between
--   suffixes of the link; Validate.HttpLanguage, Validate.HttpEnd and Validate.Harmless are about
--   http links. The function of libidn is a parameter, and the classes of ctype.h are
--   those of the C locale.
-- * Url (src/cfcgi.c): cf_cgi_url_decode and cf_cgi_url_encode; decoding is none where the code
--   leaves the string. strtol and sprintf are modelled as the C library defines them.
-- * Config (src/cfgcomp.h, src/cfgcomp_lexer.c, src/cfgcomp_codegenerator.c,
--   src/cfgcomp_assembler.c): the language of the configuration. Config.Lexer has cf_cfg_lexer and
--   what it calls, Config.Parser (src/cfgcomp_parser.c) cf_cfg_parser_insert_node on a memory of
--   tokens and the loop over an expression without brackets, whose searches have as fuel the number
--   of its tokens, Config.Codegen cf_cfg_codegenerator_tokens, Config.Parser.Compile both together,
--   and Config.Escape the writer and the readers of strings. A position is the text from it on; the
--   assembler is a list of lines in place of their bytes. Config.Machine says what the lines do over any type of values. A long has 64
--   bits, and the char of the registers a sign.
-- * Linked (src/listutils.c, cf_list_element_t and cf_list_head_t of src/utils.h): the doubly linked
--   list, on a memory that maps addresses to elements; the head and the memory are one state. An
--   element that is deleted stays in the memory, as it does in the code. Linked.Segment has what
--   the assignments to pointers do to linked elements, Linked.Lists what a list is; the fuel of
--   cf_list_search and cf_list_destroy is the number of its elements.
-- * Memory (src/memoryutils.c, src/arrayutils.c, cf_mem_pool_t and cf_array_t of src/utils.h):
--   Memory.Pool is the pool and Memory.Array the array, each on one allocated block of bytes;
--   Memory.Blocks is about blocks. An access outside of the block is none.
--
-- Base has what the parts share. Each part ends with Examples: its theorems at concrete inputs.
--
-- Bounds and fuel. Bytes and code points are natural numbers, and the theorems on them state
-- their bounds: a byte is below 256, a code point below 2^31. Lengths of blocks are not bounded.
-- The loop of cf_msg_build_hierarchical_structure and its recursion share one fuel, twice the
-- number of messages; a round either takes a message or goes one level down to one that the next
-- round takes, and the theorem shows that the fuel is enough. The loops over UTF-8 strings have
-- one round for each byte and one for the end.
--
-- What is assumed. cf_alloc gives a block or ends the program. What malloc and realloc leave in
-- new bytes is arbitrary: it is the parameter `junk`. No call appends a string to itself.
-- toupper is that of the C locale. EILSEQ is 84 and EINVAL is 22, as on Linux; CF_BUFSIZ is 8192.
--
-- Not modelled: memory that is freed, but for that of the lists, the conversions by iconv, the
-- server, the CGI programs, the plugins, the templates, the statements, the rest of the assembler
-- and the virtual machine of the configuration language, and the other libraries of src/.
pub mod Base
pub mod Config
pub mod Entities
pub mod Hash
pub mod Linked
pub mod Memory
pub mod Message
pub mod Number
pub mod Str
pub mod Tree
pub mod Url
pub mod Utf8
pub mod Validate
