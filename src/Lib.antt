-- ===== src/Lib.antt =====
-- fastd: a verification library for the core of the VPN daemon, with the sources of src/.
--
-- fastd connects peers by encrypted tunnels over UDP or TCP. A handshake (src/handshake.c, with the
-- key exchange of src/protocols/ in its records) agrees on a method and opens a session; the methods
-- of src/methods/ encrypt packets of a session and guard it against replays (src/methods/common.c).
-- All packets live in buffers (src/buffer.h) from a fixed pool (src/buffer.c). Incoming packets are
-- given to a peer by its address (src/peer_hashtable.c), Ethernet frames by a table of addresses
-- (src/peer.c), payloads can be compressed (src/compression.c), timeouts wait in a priority queue
-- (src/pqueue.c), and relays tell their peers about each other (src/discovery.c).
--
-- The modules and what they model:
--   * Base: lists, tests, integers and bit operations that all parts share.
--   * Util: the size_t arithmetic of src/util.h, with its wrap-around at 2 ^ 64.
--   * Buffer: fastd_buffer_t and fastd_buffer_view_t as a space of bytes with a window, and one
--     function per fastd_buffer_ function: push, pull, push_from, pull_to, zero_pad, ... Buffer.Pool
--     has fastd_buffer_alloc, free, dup, align, and the start and the end of the pool; PoolRuns has the
--     pool with its callers, as a relation of steps.
--   * Method: fastd_method_common_t as the record Session. Nonce has the counter of the sender,
--     Header the packet header, Replay the window of the receiver (is_nonce_valid, reorder_check).
--     Iv has the vectors that the nonces give to ciphers, Result what encrypt and decrypt return.
--   * Handshake: Record has the writers of src/handshake.h (fastd_handshake_extend, add, add_uint...),
--     Parse has parse_tlvs and the as_uint functions, Methods the lists of method names and the
--     choice of a method, Packet new_handshake and the checks of fastd_handshake_handle.
--   * Crypto: fastd_cipher_t, fastd_mac_t and the blocks of src/crypto.h; Stream says what a stream
--     cipher does, Blocks how a packet is given to it block by block.
--   * Poly1305: src/methods/generic_poly1305/generic_poly1305.c. Gmac: generic_gmac/generic_gmac.c and
--     generic_umac/generic_umac.c beside it, which differ in the key of the MAC and in their names.
--     Seal has method_encrypt, Open and Answer (Open.Checked) method_decrypt, and RoundTrip and
--     Decrypt what the two do together and to any packet.
--   * Sha256: src/sha256.c. Padding, Blocks and Hash have what the loop reads, Fips the hash of FIPS
--     180-4 on its own, from roots of primes and digits of words, with Fips.Equal for the two, and Keyed
--     HMAC. Hkdf: src/hkdf_sha256.c.
--   * Compression: the payloads of src/compression.c, with their markers.
--   * Null: the methods of src/methods/null and src/methods/null-l2tp, which do not encrypt.
--   * Discovery: the announcements of src/discovery.c and what is collected for them.
--   * PQueue: the pairing heap of src/pqueue.c, and the queue's timeout of src/task.c.
--   * EthTable: the sorted table of Ethernet addresses of src/peer.c (fastd_peer_eth_addr_add,
--     fastd_peer_find_by_eth_addr, fastd_peer_eth_addr_cleanup), with its binary search.
--   * Backoff: the tables of src/receive.c that hold back handshakes to unknown addresses.
--   * Vector: src/vector.c. PeerTable: src/peer_hashtable.c, with src/hash.h.
--
-- Conventions. Bytes and machine words are natural numbers, and their wrap-around is written out.
-- exit_bug, exit_error and out of memory are the result `none`; a function that can end the process
-- and can also fail has an option in an option. Global state (ctx, conf) is an argument as far as a
-- function reads it, and part of the result as far as it changes it. A buffer has one owner, so that
-- the pool's free list is a list; heap elements and peers are numbers that stand for their pointers.
-- The back links of the heap are the places in the tree. Access to blocks of 16 bytes that is not
-- aligned, or that leaves the buffer, is `none` as well.
--
-- Fuel. `parse_loop` has as much fuel as there are bytes, and takes four in each round;
-- `parse_string_loop` the same with one byte. `grow` has 64 rounds, since a doubling in 64 bits
-- reaches 0 then. `hashtable_insert` is nested in itself at most once, since a rebuilt table has room
-- for all peers. `find_slot` has as much fuel as there are entries, and halves the range in each round.
-- `sha256_loop` has ten rounds more than there are bytes, and needs one for 64 bytes. The theorems on
-- these functions are about results, so that the fuel is shown to be enough.
--
-- Parameters. The methods of a build are found by a function `get_by_name`, and so are its ciphers; a
-- cipher and a MAC are the records Cipher and Mac of functions, for which the theorems ask what the
-- code relies on (IsStream: a key stream is added to the text; IsMac: the tag is a function of the
-- text); the one-time authenticator of libsodium is a record with IsAuth; zstd is the record Zstd,
-- with IsZstd; the handshake protocol's keys and the peers that they belong to are the record Keys;
-- random seeds are arguments.
--
-- Not modelled: the implementations of ciphers and MACs, which wrap crypto libraries or vector
-- instructions; the methods with two ciphers and the one for tests (src/methods/composed_gmac,
-- composed_umac, cipher_test); the key exchange; sockets, polling, interfaces and other
-- system calls; the configuration's lexer and parser; the life cycle of peers; NAT traversal (hole
-- punching, port mapping, TURN, realms); the status output; and the vendored libraries of src/dep.
pub mod Base
pub mod Util
pub mod Buffer
pub mod Method
pub mod Handshake
pub mod Discovery
pub mod PQueue
pub mod Vector
pub mod PeerTable
pub mod Null
pub mod Crypto
pub mod Poly1305
pub mod Gmac
pub mod EthTable
pub mod Backoff
pub mod Sha256
pub mod Hkdf
pub mod Compression
