-- ===== src/Lib.antt =====
-- The execution of contracts by the WASM VM: nested calls, and the state they work on, which is gas,
-- storage, output, balances, big integers and the memory of instances.
--
-- The VM runs a WASM contract in a Wasmer instance and serves the calls that the contract makes. A
-- host (vmhost/hostCore/host.go) holds one context for each kind of state, and the contexts call
-- each other through it. Here the contexts are the fields of one record `Host` (Host.antt), an
-- operation that touches several of them is a function on that record, and one that touches a
-- single context is a function on the record of that context. The fields and functions have the names
-- of the Go code in snake case.
--
-- Prelude and its children: Boolean tests, lists, byte strings, Go maps as association lists, signed
--   integers and the division of math/big.
-- Overflow (math/overflow.go): saturating arithmetic. Unsigned and Signed hold its bounds.
-- Errors (vmhost/errors.go): the errors, their texts, Go's wrapping and the return codes.
-- Output (vmhost/contexts/output.go): Types has vmcommon's data, Merge the merge of two outputs; Laws
--   and Accounts hold what keeps an output well-formed, Stack is about nested calls, Combine about
--   AddToActiveState. FinalOutput and Transfer are the parts of the same file that need the host.
-- Metering (vmhost/contexts/metering.go): State is the stack, Points the gas points, Account the
--   final accounting; Gas, Stack, Sums and Conservation are about them.
-- Storage (vmhost/contexts/storage.go): View is the abstract storage, Writes and Reads relate
--   SetStorage and GetStorageFromAddress to it, Charges is the gas of a write.
-- Hook: vmcommon.BlockchainHook, which the node implements. It is a parameter of the operations.
-- Blockchain (vmhost/contexts/blockchain.go): the answers of the node that the output caches.
-- Transfer: TransferValueOnly and Transfer of vmhost/contexts/output.go.
-- FinalOutput: GetVMOutput and CreateVMOutputInCaseOfError of vmhost/contexts/output.go.
-- Fault: WithFaultAndHost of vmhost/helpers.go with FailExecution, SignalUserError and AddError of
--   vmhost/contexts/runtime.go.
-- BigInt (vmhost/contexts/bigint.go): the big integers of a contract under handles.
-- VmHooks (vmhost/vmhooks/bigIntOps.go): BigIntOps is the arithmetic that contracts call,
--   BigIntBytes the operations on unsigned bytes; Arithmetic, Faults and Shifts are about them.
--   BaseOps is the part of vmhost/vmhooks/baseOps.go on storage, storage locks, arguments, call data
--   and the transfer of value; StoredBytes and LockValues are about it.
--   CallData is its part on payments, returned data and accounts.
--   SmallIntOps is vmhost/vmhooks/smallIntOps.go, with the two's complement as the parameter Twos;
--   StoredNumbers is about it.
-- Engine: what Wasmer, the hash function, the parser of call data and the container of built-in functions
--   answer. A contract's function is a function on the host. Engine is a parameter, as Hook is.
-- Runtime (vmhost/contexts/runtime.go): the state of the running call, the stack of states and the
--   stack of instances. Memory is MemLoad and MemStore, Bounds is about them; Instances starts an
--   instance and verifies new code (vmhost/contexts/validator.go and reservedFunctions.go), Verified
--   is about it. Text and Hex are texts as bytes.
-- Execution (vmhost/hostCore/execution.go, breakpoints.go, parts of host.go): Call runs a function in a
--   nested call, Nested is executeOnDestContextNoBuiltinFunction and ExecuteOnSameContext, Builtin the
--   built-in functions, Indirect is ExecuteOnDestContext and CreateNewContract, and Direct the creation
--   and the upgrade that the node starts. Frame, Away, Runs and Returns follow the stacks and the
--   caller's instance through a call; Restore, Success, Calls, Paid, SameContext and Snapshots are what
--   calls leave to the caller and to the node.
--   Whole follows the stacks through ExecuteOnDestContext with its built-in functions.
-- Async (vmhost/hostCore/asyncCall.go, with callSCMethod and doRunSmartContractCall of execution.go and
--   ExecuteAsyncCall and AddAsyncContextCall of vmhost/contexts/runtime.go): Request is how a contract
--   asks for calls, Input makes the inputs of calls and call-backs, Modes decides where a call runs and
--   sends what leaves the shard, Gas is setupAsyncCallsGas, Pending the calls in the storage, Breakpoint
--   handleAsyncCallBreakpoint, Process processAsyncInfo, Callback the call-backs that arrive as
--   transactions, and Method the call that the node starts. LockedGas, Shares, Kept, Waiting, Resolved
--   and Sent are about gas, pending calls and calls to other shards, Panics and Stacks about what the
--   handlers return and leave. Codec is the JSON notation and the numbers and names of return codes,
--   which are parameters.
-- Tests: runs on a small host.
--
-- Numbers. A uint64 is a natural number, and Go's wrap-around is written out; a gas value, a length
-- and a charge are taken below 2 ^ 64 where a theorem says so. An int64 or int32 is an integer in
-- its range; a handle of a big integer is the bit pattern of an int32. SetPointsUsed cuts the gas
-- points off at 2 ^ 63 - 1, so that a charge can be lost above it; theorems on charges say that
-- there is room.
--
-- Fuel. The search of Put for a free handle runs on one unit of fuel more than there are handles,
-- which is enough while they are fewer than 2 ^ 32. The length of a number in bits and its bytes are
-- computed with the number itself as fuel. All other loops are structural recursion on lists.
--
-- State. Go changes accounts and big integers through pointers. A write through a pointer is a write
-- under its key here; where one operation holds two pointers that may be the same, as in a transfer
-- from an account to itself, the second one is looked up after the write through the first. A Go map
-- has no order; only the asynchronous contexts are taken in that of the association list. A nil pointer
-- that would be a panic in Go reads as nothing elsewhere, and the well-formedness of an output excludes
-- it.
--
-- Instances. Go keeps pointers to Wasmer instances, and the current instance may be on the stack of
-- instances as well: gas that is charged between PushState and StartWasmerInstance is charged to the
-- instance of the caller. An entry of the stack therefore says that it is the same instance as the one
-- above it, or holds another one. A nil instance is one without exports and without gas points; code
-- that would call a nil instance panics in Go and is not reached. Warm instances are switched off.
--
-- Calls. Nested calls and asynchronous calls come back into each other, so that each side has the other
-- as a parameter: handleAsyncCallBreakpoint and processAsyncInfo are parameters of Execution, and
-- ExecuteOnDestContext is one of Async. The theorems that need it take as hypotheses that the
-- parameters, and the functions of contracts, leave the stacks of the contexts and the settings as they
-- find them. A panic of Go on a nil pointer in asyncCall.go is `none` there, and ends the run. The calls
-- of the callee, which ExecuteOnDestContext returns too, are an answer of the parameter of Async alone.
-- The node keeps its own state: the calls that ask it to change that state are a list in the host, and
-- what it answers later may depend on them, but its accounts are taken to be the same all along. The
-- order of Go's map of exports is that of a list, and so is that of the map of asynchronous contexts.
--
-- Not modelled: the execution of WASM code, warm instances, the other operations of
-- vmhost/vmhooks/baseOps.go, TransferESDT and ExecuteESDTTransfer, the recursion that ties the nested
-- and the asynchronous calls together, panics outside asyncCall.go, cryptography, log lines, the
-- separate process of the VM in ipc, and the scenario tests.
pub mod Prelude
pub mod Overflow
pub mod Errors
pub mod Output
pub mod Host
pub mod Metering
pub mod Hook
pub mod Storage
pub mod Fault
pub mod BigInt
pub mod VmHooks
pub mod Blockchain
pub mod Transfer
pub mod FinalOutput
pub mod Engine
pub mod Runtime
pub mod Execution
pub mod Async
pub mod Tests
