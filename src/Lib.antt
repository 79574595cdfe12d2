-- ===== src/Lib.antt =====
-- A model of the Vault secrets engine for Proxmox VE: the engine issues short-lived PVE users with
-- an API token or a password, renews and revokes their leases, and sweeps up what a crash or an
-- error has left, by the entries of its write-ahead log (WAL).
--
-- The engine's functions are translated as functions of a state that holds the cached client of
-- `backend` and a log of all calls that leave the engine, the newest first. What is called (Vault's
-- storage, WAL and TTL calculation, PVE behind the interface `pveapi.Client`, the clock and the
-- random source) is the record Host: every answer is an arbitrary function of the log, so that a
-- theorem holds whatever the outside answers, failures at any call included. A Go function with
-- early returns is an `Act` (Host/Act), and `return`, `try`, `check` and `return_if` are its
-- statements.
--
-- Base        texts as lists of bytes, signed integers with the wrap-around of int64, dictionaries
-- Unicode     what Go's `range` over a string, `unicode.IsSpace` and `strings.TrimSpace` do
-- Pveapi      internal/pveapi: sentinel errors, requests, `HasPrivilege` and the decoding of groups
--             (types.go, errors.go); Client, Wire and Classify are the HTTP client of client.go, and
--             Mock is the test double of mock.go, with the directory of users that it implements;
--             Interface is the interface `Client` that both implement, and Host/Through puts the
--             engine on an implementation of it
-- Host        the outside, its data and calls, and the statements of a Go function
-- Backend     backend.go: `getConfig`, `getClient`, `invalidate`
-- Userid      userid.go: validation of the parts of a userid, and the random suffix
-- Password    password.go: `generatePassword`
-- Roles       path_roles.go: stored roles and their TTLs, as issuing and renewing read them, and the
--             handlers of <mount>/roles
-- Creds       path_creds.go: `handleCredsRead` and `cleanupUser`, in steps that follow its comments
-- Lease       secret_token.go: `secretTokenRenew` and `secretTokenRevoke`, for both secret types
-- Wal         wal.go: the rollback of WAL entries
--             (Wal/User for the users of an issuance, Wal/Rotation for a rotation)
-- Rotation    path_rotate_root.go: `rotateRoot`, `recoverRotation`, `validateReplacement`, the
--             status and `splitTokenID`
-- ConfigPath  path_config.go: the handlers of <mount>/config
-- Paths       what backend.go gives to Vault's framework: the paths with their fields and callbacks,
--             the secret types, and how the handlers read the fields of a request
-- Engine      newBackend's tables under any sequence of requests, renewals, revocations and rollbacks
-- Threads     handlers that run at the same time: `getClient` and `invalidate` with `clientMu`, the
--             handlers of a role with `roleLock`, and rotations, recoveries and rollbacks with
--             `rotationLock`, an access at a time, under any interleaving
-- Tests       a concrete Host, and the theorems at it
--
-- The loop of `HasPrivilege` has the length of the path as fuel and one more: each round takes the
-- path to a shorter one, and Pveapi/Permissions/Fuel shows that the fuel is enough. The retry
-- loop of `handleCredsRead` has its own bound of 5 rounds. Decoding and trimming runes have the
-- length of the text as fuel, as each rune takes a byte or more. The other loops are structural.
--
-- The digits of a number n have n + 1 as fuel, which Pveapi/Client/Forms shows to be enough.
--
-- The engine calls PVE through the record Host, the HTTP client calls the server through the record
-- Wire: net/http, net/url, crypto/x509 and encoding/json, again as arbitrary functions of the
-- exchanges so far. Host/Through and Lease/OverHttp put the two together. Theorems that need more of
-- them say so in a record of hypotheses.
--
-- Errors keep their sentinel and the fixed words of their texts, and the response body where it is
-- quoted; other inserted values are left out, and so are log lines. Lower case is kept for the
-- letters that the searched texts can hold. Not modelled: the texts that are only displayed, and
-- main.go, which calls Vault's SDK only. Outside Threads each handler runs alone; Threads/Rotation
-- leaves out everything of a rotation but the lock, the token IDs and the stored records. The
-- framework's requests are a parameter too, with what it documents of them in the record `Conforms`.
-- A `float64` of a lease's data is taken as the `int64` that it converts to; what JSON makes of an
-- `int64` on its way into one is a parameter of Lease/Data. The field errors of a PVE answer come in
-- the order in which Go's `range` gives them.
pub mod Base
pub mod Unicode
pub mod Pveapi
pub mod Host
pub mod Backend
pub mod Userid
pub mod Roles
pub mod ConfigPath
pub mod Password
pub mod Creds
pub mod Lease
pub mod Rotation
pub mod Wal
pub mod Engine
pub mod Paths
pub mod Threads
pub mod Tests
