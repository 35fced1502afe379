-- ===== src/Tests.antt =====
-- Concrete instances of what the model takes as parameters, and the theorems at concrete inputs.
pub mod Numbers
pub mod Memory
pub mod ShortCodec
pub mod LongCodec
pub mod SoundCases
pub mod ProcessCases
mod UpdateCases
mod SemverCases
mod IndexCases
mod DistCases
mod HealthCases
mod ServerCases
pub mod RegistryCases
mod DownloadCases
mod ListingCases
mod ServingCases
pub mod PublishCases
mod CommandCases
mod ReindexCases
