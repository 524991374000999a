-- ===== src/Lib.antt =====
-- Verification library of go-cardano-serialization: Cardano addresses, keys and transactions.
--
-- The program. Package address turns the five kinds of Cardano address into bytes and texts and
-- reads them back. It writes texts with internal/bech32, whose convertBits regroups bytes to
-- five-bit values and whose checksum is that of BIP-173; Byron addresses are CBOR with a CRC.
-- Package bip32 makes root keys, derives child keys from them and signs. Package tx builds a
-- transaction: it adds the change, counts the fee, and signs with keys of bip32; it also has
-- native scripts, which hold lists of scripts, and metadata. Package node asks a backend, the
-- Blockfrost API or cardano-cli, for unspent outputs, parameters and the tip, and submits
-- transactions. The programs under examples put these together: a wallet that makes addresses
-- from a mnemonic and pays from them.
--
-- Which file models which part.
--   Base            shared names; Base.Outcome has the results of Go functions: a value, an
--                   error or a panic; Base.Words the unsigned words with their wrap; Base.Bits
--                   the lemmas on &, | and ^; Base.Hex the package encoding/hex.
--   Network         network/network.go.
--   Bech32          internal/bech32/bech32.go: Bech32.Text the alphabet and the string
--                   functions, Bech32.Checksum polymod, hrpExpand, createChecksum and
--                   verifyChecksum, Bech32.ConvertBits convertBits, Bech32.Codec Encode and
--                   Decode.
--   Address         package address: Address.Types the types and constructors (base.go,
--                   enterprise.go, reward.go, pointer.go, byron.go, stake_credential.go),
--                   Address.VariableNat VariableNatEncode and VariableNatDecode,
--                   Address.Bytes the methods Bytes and Prefix, Address.Byron byron.go,
--                   Address.Parse NewAddressFromBytes and readAddrCred, Address.Text String,
--                   NewAddress and NewAddressFromHex.
--   Bip32           bip32/bip32.go: Bip32.Arithmetic add28mul8 and add256bits, Bip32.Keys the
--                   keys (NewXPrv, FromBip39Entropy, NormalizeBytesForce3rd, Derive, Public,
--                   MakePublicKey), Bip32.Sign Sign. Keys.Reached has the keys that a program
--                   can make as a step relation: a root, and Derive of a key.
--   Fees            fees/linear.go and protocol/protocol.go.
--   Tx              package tx: Tx itself tx.go, tx_body.go, tx_input_output.go and the witness
--                   set; Tx.Builder tx_builder.go; Tx.Metadata auxiliary_data.go; Tx.Scripts
--                   script.go, with Tx.Scripts.Laws for what it asks of CBOR; Tx.Encoding
--                   encoding.go; Tx.Signing the functions of tx_witness_set.go on ed25519.
--   Crypto          crypto/crypto.go.
--   Node            node/cardano-cli.go; Node.Interface node.go and types.go, the record of
--                   operations that both backends fill and that the wallet takes;
--                   Node.Blockfrost blockfrost.go and local_tx_submission.go.
--   Wallet          the programs under examples: Wallet itself the keys and addresses of
--                   address/generate, address/restore and transactions/txbuilder,
--                   Wallet.Payment the run of txbuilder on any node, Wallet.Programs init and
--                   main of these three, of address/simple_decode and of the query in
--                   node/main.go, with what they print as the result.
-- A child module below one of these is named for what it proves. Examples and Witnesses have runs
-- on the repository's own test data.
--
-- State and results. A Go string or byte slice is the list of its bytes. Where slicing can reach
-- behind a slice's length, the bytes up to its capacity are a second argument, `spare`. A
-- function that can fail returns a Result: `ok`, `err` with an error of the model, or `panic`
-- where Go stops with an index or slice out of range. An integer of w bits is a natural number
-- whose wrap is written out; a Go uint has 64 bits. A method that changes what its receiver
-- points to returns the changed value: the transaction builder stands for its transaction, and
-- MinFee, which shares the witness set with it, returns the builder with what it appended there.
--
-- Bounds and fuel. The loop `drain` of convertBits runs on as much fuel as it has bits, and each
-- round takes at least one. `encode_loop` of VariableNatEncode has 64 rounds, one for each binary
-- digit of a uint64, of which a round drops seven. The bound of 2 ^ 26 derivations is what keeps
-- the left half of a key below 2 ^ 255: each adds less than 2 ^ 227. UnmarshalCBOR of a native
-- script runs on fuel, one more than the bytes of its input: a script in a script is shorter than
-- it.
--
-- Not modelled. Texts outside ASCII (strings.ToLower and the rune loops differ there). The calls
-- of base58, btcutil's bech32, CBOR and CRC-32 are parameters: `ByronLibraries` and
-- `TextLibraries`, with what the code relies on in `ByronLaws`. The copies of fxamacker/cbor and
-- of the Go authors' edwards25519 inside the repository are libraries that the sources call. The
-- hashes, pbkdf2 and edwards25519 are parameters of Bip32: `KeyLibraries` and `KeyLaws`; a key's
-- capacity is taken to be its length. CBOR, blake2b and the types of native scripts and of
-- auxiliary data are parameters of Tx: `TxLibraries`; so are the encodings of a native script's
-- fields (`ScriptLibraries`), the library's tags (`AuxiliaryLibraries`), crypto/ed25519
-- (`Ed25519Libraries`), running cardano-cli, JSON and files (`CliLibraries`,
-- `ProtocolLibraries`), and the Blockfrost client and HTTP (`BlockfrostLibraries`). A nil slice
-- of scripts and an empty one are the same. The types of crypto/crypto.go are lists of bytes.
-- bip39 is a parameter of the programs (`MnemonicLibraries`, `MnemonicLaws`). Their flags come
-- parsed, and the environment, JSON for the terminal and logging are left out; log.Fatal is an
-- error. What `Tx.Builder.Covered` asks of CBOR is `SizeLaws`: a transaction without scripts and
-- auxiliary data whose outputs go to base, enterprise or pointer addresses has an encoding, and
-- it does not grow where a number takes fewer bytes and keys and signatures keep their sizes. An
-- output to a reward address has none, since its MarshalCBOR encodes a function. What Tx.Scripts
-- asks is `ScriptLaws`, within the 32 levels and the 2 ^ 17 elements that the library reads by
-- default.
pub mod Base
pub mod Network
pub mod Bech32
pub mod Address
pub mod Bip32
pub mod Crypto
pub mod Fees
pub mod Tx
pub mod Node
pub mod Wallet
