-- ===== src/Lib.antt =====
-- Verification library of the encrypted backup client.
--
-- The program is a console client in C++. It connects to a backup server, registers or re-registers
-- (a user ID from the server, an RSA key pair of its own, an AES key from the server under its RSA
-- key), encrypts the files that the user names, sends them in packets, and checks the server's CRC
-- of each. The parts and the files that model them:
--
-- - Base: tests, lists, slices, texts as lists of bytes, exceptions as values. Error names the
--   exception classes (include/utils/input_validation.h, include/utils/logger.h and those of the
--   standard library); undefined_read stands for a read past the end of a buffer.
-- - Utils/Encoding: bytes_to_hex and hex_string_to_byte_array (src/utils/encoding_utils.cpp,
--   include/utils/encoding_utils.h). Utils/Validation: src/utils/input_validation.cpp. Utils/Base64:
--   the Base64 functions and calculate_crc32 of the same two files.
-- - Protocol: the sizes, codes, requests and responses of include/protocol and src/protocol. A
--   fixed array is a text of its size, an unsigned field a number below 2 ^ w. Protocol/Bytes has
--   the object representation of a field in the byte order of the host, and the record Host with
--   ntohs and ntohl; IsNetworkOrder states their documented behaviour. Protocol/Formatting is the
--   debug output of src/protocol/protocol_formatting.cpp, as text.
-- - System: Platform is what the client takes from Boost, Crypto++ and the operating system. World
--   is the state of a process: its socket, the state of the random pool, the files by full path,
--   the input that is left and the lines printed. M is code with a state that may throw.
-- - Core/Communication: send_request and receive_response of src/core/CommunicationManager.cpp.
--   Core/Client: connect, handle_registration, backup_files, disconnect and run of
--   src/core/ClientHandler.cpp, and Core/Client/Keyed puts the registration and the upload together.
--   Config/Server: src/config/config_handling.cpp.
-- - Crypto/Buffer: an input buffer, null or not. Crypto/Aes: src/crypto/AESWrapper.cpp. Crypto/Rsa:
--   src/crypto/RSAWrapper.cpp. Crypto/Upload and Crypto/Backup: the two halves of
--   src/crypto/FileAuthentication.cpp. Auth is a FileAuthentication object with the world of its
--   manager; an output parameter is a part of the result.
--   Crypto/Backup/Batch has the files of one selection with the answers of the server to each.
--   Crypto/Upload/Receipt is a reader of the packets on the wire, as the other side has to have one.
-- - Registration/Credentials, Registration/KeyExchange, Registration/Flow: src/registration.
-- - Ui/Selection: src/ui/backup_selection.cpp. Ui/Color: the escape sequences of
--   include/ui/console_ui.h. Ui/Console: the bytes of every statement that prints.
-- - Utils/Logger: src/utils/logger.cpp. Main: src/main.cpp.
-- - Trace: what the program as a whole does to its world. Trace/Steps has the steps in which nothing
--   is sent (bytes are read, a file of the client's own is stored, and so on), and Trace/Rules one
--   rule for each way to compose code of such steps. Trace/Session is the diagram of the protocol:
--   its phases, and the request codes that lead from one to the next; Trace/Talks and Trace/Ends
--   have the rules for code that sends. The other files take every operation through them.
-- - Tests: a platform in memory, and the theorems at concrete inputs.
--
-- Loops: the loop over the packets is structural in their number. The retry loop of backup_file
-- takes the limit of three failures as its fuel: it leaves at the third. The prompts take the
-- length of the input that is left, plus one: every round takes a character or more, or ends.
-- Decimal numbers are printed with at most 20 digits.
--
-- Not modelled: the tests and the demonstration script, which are not part of the client. Base64,
-- CRC, RSA, AES, JSON, resolving and connecting are fields of Platform; what a theorem needs of them
-- is a hypothesis of it. fs::exists, fs::remove and the close of the socket may throw in the model;
-- fs::current_path, and the status of the directory that the user names, are taken to be readable.
pub mod Base
pub mod Utils
pub mod Protocol
pub mod System
pub mod Config
pub mod Core
pub mod Crypto
pub mod Registration
pub mod Ui
pub mod Main
pub mod Trace
pub mod Tests
